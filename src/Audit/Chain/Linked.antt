-- ===== src/Audit/Chain/Linked.antt =====
-- What an intact log is, said without the verifier: each row's hash covers its content and the hash
-- of the row before it, and each row names that hash.
use egreen_quanta_tes.Base.{
  ℕ, ◌+◌, ◌≤◌, String, ◌≡◌, refl, ◌∙◌, List, [], ◌∷◌, ◌++◌, arith, leb, length, last?, keep,
}
use egreen_quanta_tes.Audit.Chain.{
  Platform, Row, expected, genesis_hash, insert_by_seq, order_by_seq, rows_from, head, head_of,
}

-- The hash that a list of rows ends with, begun from `prev`.
abbrev pub end_hash : String → List Row → String
end_hash prev [] = prev
end_hash prev (r ∷ rs) = end_hash r.row_hash rs

module _ (p : Platform) where
  abbrev pub IsLink : String → Row → Type 0
  IsLink prev r = (expected p r prev ≡ r.row_hash) × (r.prev_hash ≡ prev)

  abbrev pub IsLinked : String → List Row → Type 0
  IsLinked prev [] = Unit
  IsLinked prev (r ∷ rs) = IsLink prev r × IsLinked r.row_hash rs

  -- A log as `record` leaves it: linked, and numbered on from `n` without a gap.
  abbrev pub IsLog : ℕ → String → List Row → Type 0
  IsLog n prev [] = Unit
  IsLog n prev (r ∷ rs) = (r.seq ≡ n + 1) × IsLink prev r × IsLog (n + 1) r.row_hash rs

  pub IsLog-IsLinked :
      (n : ℕ) (prev : String) (rows : List Row) → IsLog n prev rows → IsLinked prev rows
  IsLog-IsLinked n prev [] h = tt
  IsLog-IsLinked n prev (r ∷ rs) (s, l, h) = (l, IsLog-IsLinked (n + 1) r.row_hash rs h)

  -- A numbered log is in order already, and no row of it is left out from number 1 on.
  pub order_by_seq-IsLog :
      (n : ℕ) (prev : String) (rows : List Row) → IsLog n prev rows → order_by_seq rows ≡ rows
  unfolding order_by_seq insert_by_seq
  order_by_seq-IsLog n prev [] h = refl
  order_by_seq-IsLog n prev (r ∷ []) h = refl
  order_by_seq-IsLog n prev (r ∷ r' ∷ rs) h =
      rw (order_by_seq-IsLog (n + 1) r.row_hash (r' ∷ rs) h.2) (ground arith)

  pub keep-IsLog :
      (start n : ℕ) (prev : String) (rows : List Row)
      → start ≤ n + 1
      → IsLog n prev rows
      → keep (λ r. leb start r.seq) rows ≡ rows
  keep-IsLog start n prev [] le h = refl
  keep-IsLog start n prev (r ∷ rs) le h =
      ground (arith, keep-IsLog start (n + 1) r.row_hash rs (omega arith) h.2)

  last_head :
      (n : ℕ) (prev : String) (r : Row) (rs : List Row)
      → IsLog n prev (r ∷ rs)
      → head_of (last? (r ∷ rs)) ≡ (n + length (r ∷ rs), end_hash prev (r ∷ rs))
  unfolding head_of
  last_head n prev r [] h = ground arith
  last_head n prev r (r' ∷ rs) h = rw (last_head (n + 1) r.row_hash r' rs h.2) (ground arith)

  -- `_head` finds the number and the hash of the last row.
  pub head-IsLog :
      (log : List Row)
      → IsLog 0 genesis_hash log
      → head log ≡ (length log, end_hash genesis_hash log)
  unfolding head head_of order_by_seq
  head-IsLog [] h = refl
  head-IsLog (r ∷ rs) h =
      rw (order_by_seq-IsLog 0 genesis_hash (r ∷ rs) h)
        (last_head 0 genesis_hash r rs h ∙ ground arith)

  pub IsLog-append_one :
      (n : ℕ) (prev : String) (rows : List Row) (row : Row)
      → IsLog n prev rows
      → row.seq ≡ n + length rows + 1
      → IsLink (end_hash prev rows) row
      → IsLog n prev (rows ++ row ∷ [])
  IsLog-append_one n prev [] row h e l = (omega arith, l, tt)
  IsLog-append_one n prev (r ∷ rs) row h e l =
      (h.0, h.1, IsLog-append_one (n + 1) r.row_hash rs row h.2 (omega arith) l)

  pub rows_from-IsLog :
      (start : ℕ) (log : List Row)
      → start ≤ 1
      → IsLog 0 genesis_hash log
      → rows_from start log ≡ log
  unfolding rows_from
  rows_from-IsLog start log le h =
      rw (keep-IsLog start 0 genesis_hash log (omega arith) h)
        (order_by_seq-IsLog 0 genesis_hash log h)

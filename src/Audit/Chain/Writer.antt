-- ===== src/Audit/Chain/Writer.antt =====
-- What `record` and `create_anchor` add to a log.
use egreen_quanta_tes.Base.{
  ℕ, ◌+◌, ◌≤◌, String, ◌≡◌, refl, Option, some, none, List, [], ◌∷◌, arith, length, length-append,
  last?, last?-append_one,
}
use egreen_quanta_tes.Base.Text.{len_str}
use egreen_quanta_tes.Audit.Value.{Fields, num, str, end, field}
use egreen_quanta_tes.Audit.Sanitise.{sanitise, is_redacted, shorten}
use egreen_quanta_tes.Audit.Chain.{
  Platform, Row, Entry, genesis_hash, expected, append, anchor_meta, create_anchor,
}
use egreen_quanta_tes.Audit.Chain.Linked.{end_hash, IsLog, head-IsLog, IsLog-append_one}

shorten-short : (s : String) → len_str s ≤ 500 → shorten s ≡ s
unfolding shorten
shorten-short s h = ground arith

-- The `meta` of the row that an anchor adds.
abbrev pub anchored : Option Row → Fields
anchored none = end
anchored (some r) = r.meta

abbrev pub StartsWithHead : ℕ → String → Fields → Type 0
StartsWithHead seq hash fs =
    (rest : Fields) × (fs ≡ field "head_seq" (num seq) (field "head_hash" (str hash) rest))

module _ (p : Platform) where
  -- A log that is numbered from 1 and linked row by row is so after `record` has added any entry, at
  -- any instant.
  pub append-IsLog :
      (now : ℕ) (e : Entry) (log : List Row)
      → IsLog p 0 genesis_hash log
      → IsLog p 0 genesis_hash (append p now e log)
  unfolding append expected
  append-IsLog now e log h =
      rw (head-IsLog p log h) (IsLog-append_one p 0 genesis_hash log _ h (omega arith) (refl, refl))

  pub create_anchor-IsLog :
      (now : ℕ) (actor : Option String) (log : List Row)
      → IsLog p 0 genesis_hash log
      → IsLog p 0 genesis_hash (create_anchor p now actor log)
  unfolding create_anchor
  create_anchor-IsLog now actor log h = append-IsLog now _ log h

  -- The calls of `record` that a process makes, each with its instant.
  pub append_all : List (ℕ × Entry) → List Row → List Row
  append_all [] log = log
  append_all ((now, e) ∷ calls) log = append_all calls (append p now e log)

  pub append_all-IsLog :
      (calls : List (ℕ × Entry)) (log : List Row)
      → IsLog p 0 genesis_hash log
      → IsLog p 0 genesis_hash (append_all calls log)
  unfolding append_all
  append_all-IsLog [] log h = h
  append_all-IsLog ((now, e) ∷ calls) log h =
      append_all-IsLog calls (append p now e log) (append-IsLog now e log h)

  length-append_entry :
      (now : ℕ) (e : Entry) (log : List Row) → length (append p now e log) ≡ length log + 1
  unfolding append
  length-append_entry now e log = length-append log _

  pub length-append_all :
      (calls : List (ℕ × Entry)) (log : List Row)
      → length (append_all calls log) ≡ length log + length calls
  unfolding append_all
  length-append_all [] log = omega arith
  length-append_all ((now, e) ∷ calls) log =
      omega (arith, length-append_all calls (append p now e log), length-append_entry now e log)

  -- On an intact log the `meta` of an anchor begins with the number of rows and the hash of the last
  -- row, if that hash has at most 500 characters: redaction and cutting leave both as they are.
  pub create_anchor-head :
      (now : ℕ) (actor : Option String) (log : List Row)
      → IsLog p 0 genesis_hash log
      → len_str (end_hash genesis_hash log) ≤ 500
      → StartsWithHead
          (length log)
          (end_hash genesis_hash log)
          (anchored (last? (create_anchor p now actor log)))
  unfolding create_anchor append anchor_meta sanitise is_redacted
  create_anchor-head now actor log h short =
      rw (head-IsLog p log h, last?-append_one, shorten-short _ short) (_, refl)

-- ===== src/Audit/Chain/Verifier.antt =====
-- `verify_chain` against the description of an intact log in Linked.
use egreen_quanta_tes.Base.{
  ℕ, ◌≤◌, le→leb, String, ◌≡◌, ◌↔◌, refl, sym, ap, not, ◌||◌, Bool-cases, ◌∙◌, Option, some, none,
  true, List, [], ◌∷◌, ◌++◌, arith, length, str_eq, eq_iff, last?, inl, inr,
}
use egreen_quanta_tes.Audit.Chain.{
  Platform, Row, Entry, genesis_hash, expected, rows_from, start_hash, first_break, is_none,
  report_on, verify_chain,
}
use egreen_quanta_tes.Audit.Chain.Linked.{
  end_hash, IsLink, IsLinked, IsLog, IsLog-IsLinked, rows_from-IsLog,
}
use egreen_quanta_tes.Audit.Chain.Writer.{append_all, append_all-IsLog, length-append_all}

last?-cons : (r : Row) (rs : List Row) → (l : Row) × (last? (r ∷ rs) ≡ some l)
last?-cons r [] = (r, refl)
last?-cons r (r' ∷ rs) = last?-cons r' rs

-- The hash after the last row, if there is a row.
abbrev pub head_hash_of : String → List Row → Option String
head_hash_of prev [] = none
head_hash_of prev (r ∷ rs) = some (end_hash r.row_hash rs)

module _ (p : Platform) where
  first_break-IsLinked :
      (prev : String) (rows : List Row) → IsLinked p prev rows → first_break p prev rows ≡ none
  unfolding first_break
  first_break-IsLinked prev [] h = refl
  first_break-IsLinked prev (r ∷ rs) h = ground (
    arith,
    first_break-IsLinked r.row_hash rs h.1,
    eq_iff (expected p r prev) r.row_hash,
    eq_iff r.prev_hash prev,
  )

  IsLinked-first_break :
      (prev : String) (rows : List Row) → first_break p prev rows ≡ none → IsLinked p prev rows
  unfolding first_break
  IsLinked-first_break prev [] h = tt
  IsLinked-first_break prev (r ∷ rs) h =
      let link : IsLink p prev r =
        ground (arith, eq_iff (expected p r prev) r.row_hash, eq_iff r.prev_hash prev) in
      (link, IsLinked-first_break r.row_hash rs (ground arith))

  report_on-ok :
      (prev : String) (rows : List Row)
      → (report_on p rows (first_break p prev rows) (last? rows)).ok
        ≡ is_none (first_break p prev rows)
  unfolding first_break is_none
  report_on-ok prev [] = refl
  report_on-ok prev (r ∷ rs) = rw (last?-cons r rs).1

  report_on-break :
      (prev : String) (rows : List Row)
      → (report_on p rows (first_break p prev rows) (last? rows)).break_at ≡ first_break p prev rows
  unfolding first_break
  report_on-break prev [] = refl
  report_on-break prev (r ∷ rs) = rw (last?-cons r rs).1

  report_on-checked :
      (b : Option ℕ) (rows : List Row) → (report_on p rows b (last? rows)).checked ≡ length rows
  report_on-checked b [] = refl
  report_on-checked b (r ∷ rs) = rw (last?-cons r rs).1

  none-is_none : (o : Option ℕ) → is_none o ≡ true → o ≡ none
  unfolding is_none
  none-is_none none h = refl
  none-is_none (some n) h = cc

  -- Of whatever rows the table holds, `verify_chain` says "ok" exactly when those that it reads are
  -- linked: each hash is right for the row's content and the row before it, and is what the next
  -- row names.
  pub verify_chain-ok_iff :
      (start : ℕ) (log : List Row)
      → ((verify_chain p start log).ok ≡ true)
        ↔ IsLinked p (start_hash start (rows_from start log)) (rows_from start log)
  unfolding verify_chain
  verify_chain-ok_iff start log =
      let rows = rows_from start log in
      let prev = start_hash start rows in
      (
        λ h. IsLinked-first_break prev rows (none-is_none _ (sym (report_on-ok prev rows) ∙ h)),
        λ h.
            report_on-ok prev rows
            ∙ unfold is_none in ap is_none (first_break-IsLinked prev rows h),
      )

  -- The rows before the reported one are linked, and the reported one is not.
  abbrev pub BreaksAt : ℕ → String → List Row → Type 0
  BreaksAt s prev rows =
      (before : List Row) × (bad : Row) × (after : List Row) × (rows ≡ before ++ bad ∷ after)
      × (bad.seq ≡ s)
      × IsLinked p prev before
      × ¬ IsLink p (end_hash prev before) bad

  first_break-BreaksAt :
      (prev : String) (rows : List Row) (s : ℕ)
      → first_break p prev rows ≡ some s
      → BreaksAt s prev rows
  unfolding first_break
  first_break-BreaksAt prev [] s h = cc
  first_break-BreaksAt prev (r ∷ rs) s h =
      elim (Bool-cases
        (not (str_eq (expected p r prev) r.row_hash) || not (str_eq r.prev_hash prev))) [
          | inl bad ↦ (
            [],
            r,
            rs,
            refl,
            ground arith,
            tt,
            λ l.
                ground
                  (arith, eq_iff (expected p r prev) r.row_hash, eq_iff r.prev_hash prev, l.0, l.1),
          )
          | inr good ↦
              let (before, x, after, e, at, l, broken) =
                first_break-BreaksAt r.row_hash rs s (ground arith) in
              (
                r ∷ before,
                x,
                after,
                ap (λ (t : List Row). r ∷ t) e,
                at,
                (ground (arith, eq_iff (expected p r prev) r.row_hash, eq_iff r.prev_hash prev), l),
                broken,
              )
        ]

  -- When `verify_chain` reports a break at `s`, the rows that it reads are a linked part, then a row
  -- numbered `s` that does not follow from the one before it (or whose hash does not cover its
  -- content), then the rest: the report locates the first bad row.
  pub verify_chain-BreaksAt :
      (start : ℕ) (log : List Row) (s : ℕ)
      → (verify_chain p start log).break_at ≡ some s
      → BreaksAt s (start_hash start (rows_from start log)) (rows_from start log)
  unfolding verify_chain
  verify_chain-BreaksAt start log s h =
      let rows = rows_from start log in
      let prev = start_hash start rows in
      first_break-BreaksAt prev rows s (sym (report_on-break prev rows) ∙ h)

  verify_chain-IsLog :
      (start : ℕ) (log : List Row)
      → start ≤ 1
      → IsLog p 0 genesis_hash log
      → verify_chain p start log ≡ report_on p log none (last? log)
  unfolding verify_chain start_hash
  verify_chain-IsLog start log le h =
      rw (rows_from-IsLog p start log le h, le→leb start 1 le)
        (rw (first_break-IsLinked genesis_hash log (IsLog-IsLinked p 0 genesis_hash log h)))

  report_on-none : (rows : List Row) → (report_on p rows none (last? rows)).ok ≡ true
  unfolding is_none
  report_on-none [] = refl
  report_on-none (r ∷ rs) = rw (last?-cons r rs).1

  report_on-no_break : (rows : List Row) → (report_on p rows none (last? rows)).break_at ≡ none
  report_on-no_break [] = refl
  report_on-no_break (r ∷ rs) = rw (last?-cons r rs).1

  -- Whatever calls of `record` have made the table, begun empty, `verify_chain` from row 1 says "ok",
  -- has checked one row for each call, and reports no break.
  pub verify_chain-append_all :
      (calls : List (ℕ × Entry))
      → let report = verify_chain p 1 (append_all p calls []) in
        (report.ok ≡ true) × (report.checked ≡ length calls) × (report.break_at ≡ none)
  verify_chain-append_all calls =
      let log = append_all p calls [] in
      let intact = append_all-IsLog p calls [] tt in
      rw (verify_chain-IsLog 1 log (omega arith) intact) (
        report_on-none log,
        report_on-checked none log ∙ length-append_all p calls [] ∙ omega arith,
        report_on-no_break log,
      )

  -- The head that a report names is the hash that the rows end with.
  report_on-head :
      (all : List Row) (b : Option ℕ) (prev : String) (rows : List Row)
      → (report_on p all b (last? rows)).head_hash ≡ head_hash_of prev rows
  report_on-head all b prev [] = refl
  report_on-head all b prev (r ∷ []) = refl
  report_on-head all b prev (r ∷ r' ∷ rs) = report_on-head all b r.row_hash (r' ∷ rs)

  pub verify_chain-head :
      (start : ℕ) (prev : String) (log : List Row)
      → (verify_chain p start log).head_hash ≡ head_hash_of prev (rows_from start log)
  unfolding verify_chain
  verify_chain-head start prev log =
      report_on-head (rows_from start log) _ prev (rows_from start log)

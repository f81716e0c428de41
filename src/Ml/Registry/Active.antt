-- ===== src/Ml/Registry/Active.antt =====
-- At most one model is active, and the model that is served is the artifact of the active row.
use egreen_quanta_tes.Base.{
  ℕ, ◌≤◌, ◌==◌, String, ◌≡◌, refl, sym, ap, subst, ◌∙◌, Bool, true, false, not, ◌&&◌, Option, none,
  some, List, [], ◌∷◌, ◌⊎◌, inl, inr, All, All-append, All-keep, All-find, find, any, str_eq, arith,
  if◌then◌else◌,
}
use egreen_quanta_tes.Base.Text.{is_in}
use egreen_quanta_tes.Crypto.Errors.{ok-value}
use egreen_quanta_tes.Ml.Registry.Rows.{
  count_active, Distinct, Distinct-keep, count-keep, count-append, Distinct-append, same_artifact,
  Distinct-on, Distinct-off, count-off, count-on,
}
use egreen_quanta_tes.Ml.Registry.{
  new_row, MlModel, RegistryError, Registry, has_id, switch_off, switch_on, register,
  activate_found, activate, deactivate_all, delete_found_model, delete_model, load, cached, checked,
  serve, get_found, get_active_model, prune_orphans, Step, registered, activated, switched_off,
  deleted, served, pruned, Reach, empty, step,
}

module _ {ℓ} {T : Type ℓ} (version : ℕ) (read : String → Option (ℕ × T)) where
  -- What the cache holds for a row is the row's artifact.
  abbrev IsFresh : Option (String × T) → MlModel → Type ℓ
  IsFresh active r =
      (m : T) → cached version read active r.id ≡ some m → read r.artifact_path ≡ some (version, m)

  pub record IsSound (reg : Registry T) : Type ℓ where
    pub distinct : Distinct reg.rows
    pub one_active : count_active reg.rows ≤ 1
    pub fresh : All (IsFresh reg.active) reg.rows

  none-some : (m : T) → none ≡ some m → ⊥
  none-some m e = ground arith

  fresh-none : (rows : List MlModel) → All (IsFresh none) rows
  fresh-none [] = tt
  fresh-none (r ∷ rows) = ((λ m e. elim (none-some m e) [ ]), fresh-none rows)

  fresh-if :
      (b : Bool) (active : Option (String × T)) (rows : List MlModel)
      → All (IsFresh active) rows
      → All (IsFresh (if b then none else active)) rows
  fresh-if true active rows h = fresh-none rows
  fresh-if false active rows h = h

  IsSound-register :
      (id path : String) (reg : Registry T)
      → any (has_id version read id) reg.rows ≡ false
      → cached version read reg.active id ≡ none
      → IsSound reg
      → IsSound (register version read id path reg)
  unfolding register
  IsSound-register id path reg new uncached s = record {
    distinct = Distinct-append reg.rows (new_row version read id path) new s.distinct;
    one_active =
        omega (arith, s.one_active, count-append reg.rows (new_row version read id path) refl);
    fresh =
        All-append (IsFresh reg.active) reg.rows (new_row version read id path ∷ []) s.fresh
          ((λ m e. elim (none-some m (sym uncached ∙ e)) [ ]), tt);
  }

  IsSound-activate :
      (found : Option MlModel) (reg reg' : Registry T)
      → activate_found version read found reg ≡ inr reg'
      → IsSound reg
      → IsSound reg'
  IsSound-activate none reg reg' h s = ground arith
  IsSound-activate (some r) reg reg' h s =
      allowed (r.feature_schema_version == version && is_in r.artifact_path reg.disk) h
    where
      allowed :
          (b : Bool)
          → if◌then◌else◌ {A = RegistryError ⊎ Registry T} b
              (inr (record {
                rows = switch_on version read r.id reg.rows;
                disk = reg.disk;
                active = none;
              }))
              (inl RegistryError.invalid)
            ≡ inr reg'
          → IsSound reg'
      allowed true e = subst IsSound (ok-value _ _ e) (record {
        distinct = Distinct-on version read r.id reg.rows s.distinct;
        one_active = count-on version read r.id reg.rows s.distinct;
        fresh = fresh-none (switch_on version read r.id reg.rows);
      })
      allowed false e = ground arith

  IsSound-delete :
      (found : Option MlModel) (reg reg' : Registry T)
      → delete_found_model version read found reg ≡ inr reg'
      → IsSound reg
      → IsSound reg'
  IsSound-delete none reg reg' h s = ground arith
  IsSound-delete (some r) reg reg' h s =
      let p : MlModel → Bool = λ t. not (has_id version read r.id t) in
      subst IsSound (ok-value _ _ h) (record {
        distinct = Distinct-keep p reg.rows s.distinct;
        one_active = omega (arith, s.one_active, count-keep p reg.rows);
        fresh =
            All-keep p (IsFresh (if r.is_active then none else reg.active)) reg.rows
              (fresh-if r.is_active reg.active reg.rows s.fresh);
      })

  -- What is served is the artifact of a row, of the current schema version.
  IsServed : Registry T → Option T → Type ℓ
  IsServed reg got =
      (m : T)
      → got ≡ some m
      → (r : MlModel) × (find (λ r. r.is_active) reg.rows ≡ some r)
        × (read r.artifact_path ≡ some (version, m))

  fresh-new :
      (r : MlModel) (m : T) (rows : List MlModel)
      → read r.artifact_path ≡ some (version, m)
      → All (λ s. str_eq r.id s.id ≡ true → s.artifact_path ≡ r.artifact_path) rows
      → All (IsFresh (some (r.id, m))) rows
  fresh-new r m [] loads h = tt
  fresh-new r m (s ∷ rows) loads h = (here, fresh-new r m rows loads h.1)
    where
      hit : (b : Bool) (m' : T) → (if b then some m else none) ≡ some m' → (b ≡ true) × (m ≡ m')
      hit true m' e = (refl, value e)
        where
          value : some m ≡ some m' → m ≡ m'
          value e = cc
      hit false m' e = ground arith

      here :
          (m' : T)
          → (if str_eq r.id s.id then some m else none) ≡ some m'
          → read s.artifact_path ≡ some (version, m')
      here m' e =
          let (same, value) = hit (str_eq r.id s.id) m' e in
          ap read (h.0 same) ∙ loads ∙ ap (λ k. some (version, k)) value

  serve-IsSound :
      (reg : Registry T) (r : MlModel)
      → IsSound reg
      → find (λ r. r.is_active) reg.rows ≡ some r
      → let (got, reg') = get_found version read (some r) reg in IsSound reg' × IsServed reg got
  unfolding IsServed
  serve-IsSound reg r s found = by (cached version read reg.active r.id) refl
    where
      of_disk :
          (v : ℕ) (m : T)
          → load version read reg.disk r.artifact_path ≡ some (v, m)
          → read r.artifact_path ≡ some (v, m)
      of_disk v m e = ground arith

      versioned :
          (v : ℕ) (m : T) (b : Bool)
          → (v == version) ≡ b
          → read r.artifact_path ≡ some (v, m)
          → let (got, reg') =
              if◌then◌else◌ {A = Option T × Registry T} b
                (some m, record { rows = reg.rows; disk = reg.disk; active = some (r.id, m) })
                (none, reg) in
            IsSound reg' × IsServed reg got
      versioned v m true same loads =
          let exact = loads ∙ ap (λ k. some (k, m)) (equal v same) in
          (
            record {
              distinct = s.distinct;
              one_active = s.one_active;
              fresh =
                  fresh-new r m reg.rows exact
                    (same_artifact (λ r. r.is_active) reg.rows r s.distinct found);
            },
            λ m' e. (r, found, exact ∙ ap (λ k. some (version, k)) (value m m' e)),
          )
        where
          equal : (v : ℕ) → (v == version) ≡ true → v ≡ version
          equal v e = ground arith

          value : (m m' : T) → some m ≡ some m' → m ≡ m'
          value m m' e = cc
      versioned v m false same loads = (s, λ m' e. elim (none-some m' e) [ ])

      loaded :
          (l : Option (ℕ × T))
          → load version read reg.disk r.artifact_path ≡ l
          → let (got, reg') = checked version read l r.id reg in IsSound reg' × IsServed reg got
      loaded none e = (s, λ m' e. elim (none-some m' e) [ ])
      loaded (some (v, m)) e = versioned v m (v == version) refl (of_disk v m e)

      by :
          (c : Option T)
          → cached version read reg.active r.id ≡ c
          → let (got, reg') = serve version read c r reg in IsSound reg' × IsServed reg got
      by (some m) e = (
        s,
        λ m' e'. (
          r,
          found,
          (All-find (λ r. r.is_active) (IsFresh reg.active) reg.rows r found s.fresh).0 m' (e ∙ e'),
        ),
      )
      by none e = loaded (load version read reg.disk r.artifact_path) refl

  get-IsSound :
      (found : Option MlModel) (reg : Registry T)
      → find (λ r. r.is_active) reg.rows ≡ found
      → IsSound reg
      → let (got, reg') = get_found version read found reg in IsSound reg' × IsServed reg got
  unfolding IsServed
  get-IsSound none reg e s = (s, λ m e. elim (none-some m e) [ ])
  get-IsSound (some r) reg e s = serve-IsSound reg r s e

  IsSound-Step : (reg reg' : Registry T) → Step version read reg reg' → IsSound reg → IsSound reg'
  unfolding activate deactivate_all delete_model get_active_model prune_orphans
  IsSound-Step reg reg' (registered id path _ new uncached) s =
      IsSound-register id path reg new uncached s
  IsSound-Step reg reg' (activated id _ _ h) s =
      IsSound-activate (find (has_id version read id) reg.rows) reg reg' h s
  IsSound-Step reg reg' (switched_off _) s = record {
    distinct = Distinct-off version read reg.rows s.distinct;
    one_active = omega (arith, count-off version read reg.rows);
    fresh = fresh-none (switch_off version read reg.rows);
  }
  IsSound-Step reg reg' (deleted id _ _ h) s =
      IsSound-delete (find (has_id version read id) reg.rows) reg reg' h s
  IsSound-Step reg reg' (served _) s = (get-IsSound (find (λ r. r.is_active) reg.rows) reg refl s).0
  IsSound-Step reg reg' (pruned _) s =
      let p : MlModel → Bool = λ r. is_in r.artifact_path reg.disk in
      record {
        distinct = Distinct-keep p reg.rows s.distinct;
        one_active = omega (arith, s.one_active, count-keep p reg.rows);
        fresh = All-keep p (IsFresh _) reg.rows (fresh-if _ reg.active reg.rows s.fresh);
      }

  Reach-IsSound : (reg : Registry T) → Reach version read reg → IsSound reg
  Reach-IsSound reg empty = record { distinct = tt; one_active = omega arith; fresh = tt }
  Reach-IsSound reg (step before _ r s) = IsSound-Step before reg s (Reach-IsSound before r)

  -- In every state that the calls of the registry reach from an empty one, at most one model is active,
  -- and the model that is served, from the cache or not, is the artifact of the active row, of the
  -- current version, when each new id is neither in the table nor in the cache and an artifact never
  -- changes under its path.
  pub get_active_model-IsServed :
      (reg : Registry T) (m : T)
      → Reach version read reg
      → (get_active_model version read reg).0 ≡ some m
      → (count_active reg.rows ≤ 1)
        × (r : MlModel) × (find (λ r. r.is_active) reg.rows ≡ some r)
        × (read r.artifact_path ≡ some (version, m))
  unfolding get_active_model IsServed
  get_active_model-IsServed reg m r e =
      let s = Reach-IsSound reg r in
      let (row, found, loads) = (get-IsSound (find (λ r. r.is_active) reg.rows) reg refl s).1 m e in
      (s.one_active, row, found, loads)

-- ===== src/Ml/Registry.antt =====
-- backend/app/services/ml/registry.py: the table of models, the artifacts on disk and the cache of the
-- process. `read` loads an artifact, with its feature schema version, where it is well formed.
pub mod Rows
pub mod Active
mod Tests
use Prim.Native.String.{◌++◌ as append_str}
use egreen_quanta_tes.Base.{
  ℕ, ◌==◌, String, Bool, true, false, not, ◌&&◌, Option, none, some, List, [], ◌∷◌, ◌++◌, ◌⊎◌, inl,
  inr, ◌≡◌, find, keep, any, length, str_eq, if◌then◌else◌,
}
use egreen_quanta_tes.Base.Text.{is_in}

-- `MlModel`, with the columns that the registry reads or writes after training.
pub record MlModel : Type 0 where
  pub id : String
  pub feature_schema_version : ℕ
  pub artifact_path : String
  pub is_active : Bool

pub data RegistryError : Type 0 where
  not_found invalid : RegistryError

-- The state: `disk` holds the paths that exist, `active` is the module's variable `_ACTIVE`.
pub record Registry {ℓ} (T : Type ℓ) : Type ℓ where
  pub rows : List MlModel
  pub disk : List String
  pub active : Option (String × T)

module _ {ℓ} {T : Type ℓ} (version : ℕ) (read : String → Option (ℕ × T)) where
  abbrev pub has_id : String → MlModel → Bool
  has_id id r = str_eq r.id id

  abbrev pub with_active : Bool → MlModel → MlModel
  with_active b r = record {
    id = r.id;
    feature_schema_version = r.feature_schema_version;
    artifact_path = r.artifact_path;
    is_active = b;
  }

  -- `update(MlModel).values(is_active=False)`, and the row of an id then active.
  abbrev pub switch_off : List MlModel → List MlModel
  switch_off [] = []
  switch_off (r ∷ rows) = with_active false r ∷ switch_off rows

  abbrev pub switch_on : String → List MlModel → List MlModel
  switch_on id [] = []
  switch_on id (r ∷ rows) = with_active (has_id id r) r ∷ switch_on id rows

  -- `train_and_register`, once the model is trained and saved under its new id.
  abbrev pub new_row : String → String → MlModel
  new_row id path = record {
    id = id;
    feature_schema_version = version;
    artifact_path = path;
    is_active = false;
  }

  unfoldable pub register : String → String → Registry T → Registry T
  register id path reg = record {
    rows = reg.rows ++ new_row id path ∷ [];
    disk = path ∷ reg.disk;
    active = reg.active;
  }

  -- `activate`
  abbrev pub activate_found : Option MlModel → Registry T → RegistryError ⊎ Registry T
  activate_found none reg = inl not_found
  activate_found (some r) reg =
      if r.feature_schema_version == version && is_in r.artifact_path reg.disk
      then inr (record { rows = switch_on r.id reg.rows; disk = reg.disk; active = none })
      else inl invalid

  unfoldable pub activate : String → Registry T → RegistryError ⊎ Registry T
  activate id reg = activate_found (find (has_id id) reg.rows) reg

  -- `deactivate_all`
  unfoldable pub deactivate_all : Registry T → Registry T
  deactivate_all reg = record { rows = switch_off reg.rows; disk = reg.disk; active = none }

  -- `delete_model`
  abbrev pub delete_found_model : Option MlModel → Registry T → RegistryError ⊎ Registry T
  delete_found_model none reg = inl not_found
  delete_found_model (some r) reg = inr (record {
    rows = keep (λ s. not (has_id r.id s)) reg.rows;
    disk = keep (λ p. not (str_eq p r.artifact_path)) reg.disk;
    active = if r.is_active then none else reg.active;
  })

  unfoldable pub delete_model : String → Registry T → RegistryError ⊎ Registry T
  delete_model id reg = delete_found_model (find (has_id id) reg.rows) reg

  -- `TrainedModel.load`, nothing where it raises.
  abbrev pub load : List String → String → Option (ℕ × T)
  load disk path = if is_in path disk then read path else none

  abbrev pub cached : Option (String × T) → String → Option T
  cached none id = none
  cached (some (k, m)) id = if str_eq k id then some m else none

  abbrev pub checked : Option (ℕ × T) → String → Registry T → Option T × Registry T
  checked none id reg = (none, reg)
  checked (some (v, m)) id reg =
      if v == version
      then (some m, record { rows = reg.rows; disk = reg.disk; active = some (id, m) })
      else (none, reg)

  abbrev pub serve : Option T → MlModel → Registry T → Option T × Registry T
  serve (some m) r reg = (some m, reg)
  serve none r reg = checked (load reg.disk r.artifact_path) r.id reg

  abbrev pub get_found : Option MlModel → Registry T → Option T × Registry T
  get_found none reg = (none, reg)
  get_found (some r) reg = serve (cached reg.active r.id) r reg

  -- `get_active_model`, where the models are enabled.
  unfoldable pub get_active_model : Registry T → Option T × Registry T
  get_active_model reg = get_found (find (λ r. r.is_active) reg.rows) reg

  -- `prune_orphans`
  abbrev is_orphan : List String → MlModel → Bool
  is_orphan disk r = not (is_in r.artifact_path disk)

  unfoldable pub prune_orphans : Registry T → ℕ × Registry T
  prune_orphans reg =
      let orphans = keep (is_orphan reg.disk) reg.rows in
      (
        length orphans,
        record {
          rows = keep (λ r. is_in r.artifact_path reg.disk) reg.rows;
          disk = reg.disk;
          active = if any (is_orphan reg.disk) reg.rows then none else reg.active;
        },
      )

  -- The calls that change the state; a registered id is new.
  pub data Step : Registry T → Registry T → Type ℓ where
    registered :
        (id path : String) (reg : Registry T)
        → any (has_id id) reg.rows ≡ false
        → cached reg.active id ≡ none
        → Step reg (register id path reg)
    activated : (id : String) (reg reg' : Registry T) → activate id reg ≡ inr reg' → Step reg reg'
    switched_off : (reg : Registry T) → Step reg (deactivate_all reg)
    deleted : (id : String) (reg reg' : Registry T) → delete_model id reg ≡ inr reg' → Step reg reg'
    served : (reg : Registry T) → Step reg (get_active_model reg).1
    pruned : (reg : Registry T) → Step reg (prune_orphans reg).1

  -- The states that calls from an empty one reach.
  pub data Reach : Registry T → Type ℓ where
    empty : Reach (record { rows = []; disk = []; active = none })
    step : (reg reg' : Registry T) → Reach reg → Step reg reg' → Reach reg'

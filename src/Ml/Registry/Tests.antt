-- ===== src/Ml/Registry/Tests.antt =====
-- A model is registered and activated: the theorem about the registry at it.
use egreen_quanta_tes.Base.{ℕ, ◌≤◌, String, ◌≡◌, refl, true, Option, none, some, [], ◌∷◌, inr, find}
use egreen_quanta_tes.Ml.Registry.{
  MlModel, Registry, register, activate, get_active_model, Reach, empty, step, registered,
  activated, new_row, with_active,
}
use egreen_quanta_tes.Ml.Registry.Rows.{count_active}
use egreen_quanta_tes.Ml.Registry.Active.{get_active_model-IsServed}

abbrev read : String → Option (ℕ × String)
read path = some (3, "model")

abbrev row : MlModel
row = with_active 3 read true (new_row 3 read "m1" "m1.joblib")

abbrev start : Registry String
start = record { rows = []; disk = []; active = none }

abbrev ready : Registry String
ready = record { rows = row ∷ []; disk = "m1.joblib" ∷ []; active = none }

is_activated : activate 3 read "m1" (register 3 read "m1" "m1.joblib" start) ≡ inr ready
unfolding activate register
is_activated = refl

reached : Reach 3 read ready
reached =
    step (register 3 read "m1" "m1.joblib" start) ready
      (step start (register 3 read "m1" "m1.joblib" start) empty
        (registered "m1" "m1.joblib" start refl refl))
      (activated "m1" (register 3 read "m1" "m1.joblib" start) ready is_activated)

is_served : (get_active_model 3 read ready).0 ≡ some "model"
unfolding get_active_model
is_served = refl

get_active_model-IsServed_example :
    (count_active (row ∷ []) ≤ 1)
    × (r : MlModel) × (find (λ r. r.is_active) (row ∷ []) ≡ some r)
    × (read r.artifact_path ≡ some (3, "model"))
get_active_model-IsServed_example = get_active_model-IsServed 3 read ready "model" reached is_served

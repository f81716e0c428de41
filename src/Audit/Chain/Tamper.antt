-- ===== src/Audit/Chain/Tamper.antt =====
-- Tamper evidence: what the hash of the last row says of every row before it. Two logs with one head
-- hash and another content would show a collision of the digest.
use Prim.Native.String.{◌++◌ as append_str}
use mathlib.Core.List.{Mem}
use egreen_quanta_tes.Base.{String, ◌≡◌, ◌≢◌, List, [], ◌∷◌, ◌⊎◌}
use egreen_quanta_tes.Audit.Value.{Fields, dict}
use egreen_quanta_tes.Audit.Chain.{Platform, Row, genesis_hash, core}
use egreen_quanta_tes.Audit.Chain.Linked.{IsLink}

-- A dumped dictionary ends where its text says, at the brace that closes it, whatever follows.
abbrev pub IsDelimited : Platform → Type 0
IsDelimited p =
    (f g : Fields) (s t : String)
    → append_str (p.dumps (dict f)) s ≡ append_str (p.dumps (dict g)) t
    → (p.dumps (dict f) ≡ p.dumps (dict g)) × (s ≡ t)

module _ (p : Platform) where
  -- The text of a row that its hash covers.
  abbrev pub content : Row → String
  content r =
      p.dumps (core p r.seq r.ts r.actor_id r.actor_type r.action r.target_type r.target_id r.meta)

  -- The text that the hash of a row is taken of.
  abbrev pub hashed : Row → String
  hashed r = append_str (content r) r.prev_hash

-- What two logs show against the digest: two rows of theirs whose hashed texts differ and have one
-- digest, or a row whose hashed text has the genesis hash for its digest.
pub data Collision (p : Platform) (log log' : List Row) : Type 0 where
  same_digest :
      (r s : Row)
      → Mem r log
      → Mem s log'
      → hashed p r ≢ hashed p s
      → p.sha256 (hashed p r) ≡ p.sha256 (hashed p s)
      → Collision p log log'
  genesis_digest :
      (r : Row)
      → Mem r log ⊎ Mem r log'
      → p.sha256 (hashed p r) ≡ genesis_hash
      → Collision p log log'

-- A log read from its end.
back {ℓ} : {A : Type ℓ} → List A → List A → List A
back [] acc = acc
back (x ∷ xs) acc = back xs (x ∷ acc)

-- The hash that the next row would name.
abbrev top : List Row → String
top [] = genesis_hash
top (r ∷ rs) = r.row_hash

module _ (p : Platform) where
  abbrev IsBackLinked : List Row → Type 0
  IsBackLinked [] = Unit
  IsBackLinked (r ∷ rs) = IsLink p (top rs) r × IsBackLinked rs

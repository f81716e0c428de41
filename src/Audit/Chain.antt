-- ===== src/Audit/Chain.antt =====
-- backend/app/services/audit/chain.py: the hash-chained log, its writer, verifier, anchors and
-- export. `_WRITE_LOCK` makes an append one step, so an append is a function on the table. Instants
-- are microseconds since the epoch. What is serialised and hashed is ASCII (`json.dumps` escapes
-- the rest), so bytes are texts.
pub mod Linked
pub mod Writer
pub mod Verifier
pub mod Tamper
mod Tests
use Prim.Native.String.{◌++◌ as append_str}
use egreen_quanta_tes.Base.{
  ℕ, ◌+◌, ◌*◌, ◌/◌, String, Bool, true, false, not, ◌||◌, Option, none, some, List, [], ◌∷◌, ◌++◌,
  str_eq, leb, ltb, ◌==◌, length, last?, keep, if◌then◌else◌,
}
use egreen_quanta_tes.Audit.Value.{Value, Fields, null, num, str, dict, end, field, opt_str}
use egreen_quanta_tes.Audit.Sanitise.{sanitise}

-- What the module takes from outside: `hashlib.sha256(..).hexdigest()`, `json.dumps` with sorted
-- keys, `datetime.isoformat` of an instant, `str` of an integer, and the configured Ed25519
-- signature in base64 (`none` with no key).
pub record Platform : Type 0 where
  pub sha256 : String → String
  pub dumps : Value → String
  pub isoformat : ℕ → String
  pub decimal : ℕ → String
  pub sign : Option (String → String)

-- `AuditLog`
pub record Row : Type 0 where
  pub seq : ℕ
  pub ts : ℕ
  pub actor_id : Option String
  pub actor_type : String
  pub action : String
  pub target_type : Option String
  pub target_id : Option String
  pub meta : Fields
  pub prev_hash : String
  pub row_hash : String

abbrev pub genesis_hash : String
genesis_hash = "0000000000000000000000000000000000000000000000000000000000000000"

-- The arguments of `record`.
pub record Entry : Type 0 where
  pub action : String
  pub actor_id : Option String
  pub actor_type : String
  pub target_type : Option String
  pub target_id : Option String
  pub meta : Fields

-- `replace(microsecond=0)`
pub whole_second : ℕ → ℕ
whole_second t = t / 1000000 * 1000000

-- `select(AuditLog).order_by(AuditLog.seq.asc())`
pub insert_by_seq : Row → List Row → List Row
insert_by_seq r [] = r ∷ []
insert_by_seq r (x ∷ xs) = if leb r.seq x.seq then r ∷ x ∷ xs else x ∷ insert_by_seq r xs

pub order_by_seq : List Row → List Row
unfolding insert_by_seq
order_by_seq [] = []
order_by_seq (r ∷ rs) = insert_by_seq r (order_by_seq rs)

-- The rows that `verify_chain` and `export_range` read.
pub rows_from : ℕ → List Row → List Row
rows_from start log = order_by_seq (keep (λ r. leb start r.seq) log)

-- `_head`
pub head_of : Option Row → ℕ × String
head_of none = (0, genesis_hash)
head_of (some r) = (r.seq, r.row_hash)

pub head : List Row → ℕ × String
head log = head_of (last? (order_by_seq log))

pub record Report : Type 0 where
  pub ok : Bool
  pub checked : ℕ
  pub break_at : Option ℕ
  pub head_hash : Option String
  pub head_seq : Option ℕ

abbrev pub first_prev : List Row → String
first_prev [] = genesis_hash
first_prev (r ∷ rs) = r.prev_hash

-- `prev` before the loop of `verify_chain`.
pub start_hash : ℕ → List Row → String
start_hash start rows = if leb start 1 then genesis_hash else first_prev rows

pub is_none : Option ℕ → Bool
is_none none = true
is_none (some n) = false

pub record Export : Type 0 where
  pub start_seq : ℕ
  pub end_seq : ℕ
  pub rows : List Row
  pub signature : Option (String × String)

module _ (p : Platform) where
  -- `core` of `compute_row_hash`; `_ts_key` is the instant cut to whole seconds.
  pub core :
      ℕ → ℕ → Option String → String → String → Option String → Option String → Fields → Value
  unfolding whole_second
  core seq ts actor_id actor_type action target_type target_id meta = dict (
      field "seq" (num seq) (
        field "ts" (str (p.isoformat (whole_second ts))) (
          field "actor_id" (opt_str actor_id) (
            field "actor_type" (str actor_type) (
              field "action" (str action) (
                field "target_type" (opt_str target_type)
                  (field "target_id" (opt_str target_id) (field "meta" (dict meta) end))))))))

  pub compute_row_hash :
      ℕ
      → ℕ
      → Option String
      → String
      → String
      → Option String
      → Option String
      → Fields
      → String
      → String
  compute_row_hash seq ts actor_id actor_type action target_type target_id meta prev_hash =
      p.sha256 (
        append_str (p.dumps (core seq ts actor_id actor_type action target_type target_id meta))
          prev_hash)

  -- `expected` in `verify_chain`.
  pub expected : Row → String → String
  expected r prev =
      compute_row_hash r.seq r.ts r.actor_id r.actor_type r.action r.target_type r.target_id r.meta
        prev

  -- `record` at the instant `now`.
  pub append : ℕ → Entry → List Row → List Row
  unfolding whole_second
  append now e log =
      let meta = sanitise e.meta in
      let (last_seq, prev_hash) = head log in
      let now_s = whole_second now in
      let seq = last_seq + 1 in
      let row_hash =
        compute_row_hash seq now_s e.actor_id e.actor_type e.action e.target_type e.target_id meta
          prev_hash in
      log
      ++ record {
        seq = seq;
        ts = now_s;
        actor_id = e.actor_id;
        actor_type = e.actor_type;
        action = e.action;
        target_type = e.target_type;
        target_id = e.target_id;
        meta = meta;
        prev_hash = prev_hash;
        row_hash = row_hash;
      }
        ∷ []

  -- The loop of `verify_chain`: the sequence number of the first bad row.
  pub first_break : String → List Row → Option ℕ
  first_break prev [] = none
  first_break prev (r ∷ rs) =
      let rest = first_break r.row_hash rs in
      if not (str_eq (expected r prev) r.row_hash) || not (str_eq r.prev_hash prev)
      then some r.seq
      else rest

  abbrev report_on : List Row → Option ℕ → Option Row → Report
  report_on rows break none = record {
    ok = true;
    checked = 0;
    break_at = none;
    head_hash = none;
    head_seq = none;
  }
  report_on rows break (some l) = record {
    ok = is_none break;
    checked = length rows;
    break_at = break;
    head_hash = some l.row_hash;
    head_seq = some l.seq;
  }

  pub verify_chain : ℕ → List Row → Report
  verify_chain start log =
      let rows = rows_from start log in
      report_on rows (first_break (start_hash start rows) rows) (last? rows)

  -- The `meta` of an anchor.
  pub anchor_meta : ℕ → String → Fields
  anchor_meta seq hash = field "head_seq" (num seq) (
      field "head_hash" (str hash) (elim p.sign [
        | none ↦ end
        | some sign ↦
            field "signature" (str (sign hash)) (field "signature_alg" (str "ed25519") end)
      ]))

  abbrev anchor_actor : Option String → String
  anchor_actor none = "system"
  anchor_actor (some a) = "user"

  pub create_anchor : ℕ → Option String → List Row → List Row
  create_anchor now actor_id log =
      let (head_seq, head_hash) = head log in
      append now
        (record {
          action = "audit.anchor";
          actor_id = actor_id;
          actor_type = anchor_actor actor_id;
          target_type = some "audit_log";
          target_id = some (p.decimal head_seq);
          meta = anchor_meta head_seq head_hash;
        })
        log

-- `stmt.where(AuditLog.seq <= end_seq)`, and the `end_seq` of the payload, where 0 counts as absent.
abbrev cut_at : Option ℕ → List Row → List Row
cut_at none rows = rows
cut_at (some e) rows = keep (λ r. leb r.seq e) rows

abbrev last_seq_or : ℕ → Option Row → ℕ
last_seq_or start none = start
last_seq_or start (some r) = r.seq

abbrev end_or : Option ℕ → ℕ → ℕ
end_or none d = d
end_or (some e) d = if e == 0 then d else e

module _ (p : Platform) (dump_rows : List Row → String) where
  abbrev sign_rows : Option (String → String) → List Row → Option (String × String)
  sign_rows none rows = none
  sign_rows (some sign) [] = none
  sign_rows (some sign) (r ∷ rs) =
      let digest = p.sha256 (dump_rows (r ∷ rs)) in some (digest, sign digest)

  pub export_range : ℕ → Option ℕ → List Row → Export
  export_range start end_seq log =
      let rows = cut_at end_seq (rows_from start log) in
      record {
        start_seq = start;
        end_seq = end_or end_seq (last_seq_or start (last? rows));
        rows = rows;
        signature = sign_rows p.sign rows;
      }

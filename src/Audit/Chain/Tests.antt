-- ===== src/Audit/Chain/Tests.antt =====
-- Runs of the audit log, and the theorems about it at concrete inputs.
use Prim.Native.Char.{Char}
use Prim.Native.String.{◌++◌ as append_str}
use egreen_quanta_tes.Base.{
  ℕ, zero, suc, ◌≤◌, String, ◌≡◌, refl, some, none, true, List, [], ◌∷◌, arith, ◌↔◌,
}
use egreen_quanta_tes.Base.Text.{len_str}
use egreen_quanta_tes.Audit.Value.{Value, num, str, dict, end, field}
use egreen_quanta_tes.Audit.Sanitise.{sanitise, is_redacted, shorten}
use egreen_quanta_tes.Audit.Chain.{
  Platform, Row, Entry, genesis_hash, head, head_of, append, verify_chain, rows_from, expected,
  order_by_seq, insert_by_seq, start_hash, first_break, is_none, core, compute_row_hash,
}
use egreen_quanta_tes.Audit.Chain.Linked.{end_hash, IsLog, IsLinked}
use egreen_quanta_tes.Audit.Chain.Writer.{append_all, append-IsLog}
use egreen_quanta_tes.Audit.Chain.Verifier.{
  BreaksAt, verify_chain-ok_iff, verify_chain-BreaksAt, verify_chain-append_all,
}

-- A platform that meets the assumption: a value is dumped as its first number in strokes, closed
-- by a semicolon, and the digest of a text is the text behind an "x".
strokes : ℕ → String
strokes zero = ";"
strokes (suc n) = String.◌∷◌ "|" (strokes n)

first_number : Value → ℕ
first_number (dict (field k (num n) rest)) = n
first_number v = 0

abbrev crossed : String → String
crossed s = String.◌∷◌ "x" s

abbrev toy : Platform
toy = record {
  sha256 = crossed;
  dumps = λ v. strokes (first_number v);
  isoformat = λ t. "1970-01-01";
  decimal = strokes;
  sign = none;
}

abbrev login : Entry
login = record {
  action = "auth.login.success";
  actor_id = some "u1";
  actor_type = "user";
  target_type = some "user";
  target_id = none;
  meta = field "Password" (str "hunter2") (field "reason" (str "none") end);
}

abbrev log : List Row
log = append toy 1700000000123456 login (append toy 1600000000000000 login [])

-- The second row with another action: the break is found at row 2.
abbrev forge : List Row → List Row
forge (r ∷ s ∷ rs) = r ∷ record s { seq = 3 } ∷ rs
forge rs = rs

forged_is_found : (verify_chain toy 1 (forge log)).break_at ≡ some 3
unfolding verify_chain append head head_of rows_from order_by_seq insert_by_seq start_hash
    first_break is_none expected compute_row_hash core sanitise is_redacted shorten first_number
    strokes
forged_is_found = refl

log-IsLog : IsLog toy 0 genesis_hash log
log-IsLog =
    append-IsLog toy 1700000000123456 login _ (append-IsLog toy 1600000000000000 login [] tt)

-- The table with its rows in another place: read in the order of their numbers, they are the same.
abbrev turned : List Row
turned = turn log
  where
    turn : List Row → List Row
    turn (r ∷ s ∷ rs) = s ∷ r ∷ rs
    turn rs = rs

verify_chain-BreaksAt_example :
    BreaksAt toy 3 (start_hash 1 (rows_from 1 (forge log))) (rows_from 1 (forge log))
verify_chain-BreaksAt_example = verify_chain-BreaksAt toy 1 (forge log) 3 forged_is_found

verify_chain-ok_iff_example :
    ((verify_chain toy 1 log).ok ≡ true)
    ↔ IsLinked toy (start_hash 1 (rows_from 1 log)) (rows_from 1 log)
verify_chain-ok_iff_example = verify_chain-ok_iff toy 1 log

verify_chain-append_all_example :
    let report = verify_chain toy 1 (append_all toy ((7, login) ∷ []) []) in
    (report.ok ≡ true) × (report.checked ≡ 1) × (report.break_at ≡ none)
verify_chain-append_all_example = verify_chain-append_all toy ((7, login) ∷ [])

short_head : len_str (end_hash genesis_hash log) ≤ 500
unfolding append head head_of order_by_seq insert_by_seq compute_row_hash core first_number strokes
short_head = omega arith

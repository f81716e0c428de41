-- ===== src/Audit/Sanitise/Tests.antt =====
-- The theorems about `_sanitise` at a concrete dictionary.
use egreen_quanta_tes.Audit.Value.{Fields, str, dict, end, field}
use egreen_quanta_tes.Audit.Sanitise.{sanitise}
use egreen_quanta_tes.Audit.Sanitise.Laws.{IsClean, sanitise-IsClean}

abbrev request : Fields
request =
    field "path" (str "/login") (field "body" (dict (field "Password" (str "hunter2") end)) end)

sanitise-IsClean_example : IsClean (sanitise request)
sanitise-IsClean_example = sanitise-IsClean request

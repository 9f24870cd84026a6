-- ===== src/Tools/Audits.antt =====
-- skill/src/tools/pinch-audit-verify.ts and pinch-audit-export.ts, from the arguments on. What they
-- print or write to the file is the value that `run` gives.
pub mod Exported
use pinch.Prelude.Act.{Result, ok, throw, usage}
use pinch.Prelude.{
  ℕ, zero, suc, String, ◌≡◌, eqb, Bool, true, false, ◌&&◌, ◌||◌, Option, none, some, List, [], ◌∷◌,
  ◌==◌, keep, length, ◌or◌, if◌then◌else◌, arith, Bool-cases, inl, inr,
}
use pinch.Feed.{Runtime, ActivityEvent, ActivityFeed, at_least, at_most, by_time}
use pinch.Feed.Audit.{Report, valid, is_hashed, verify}
use pinch.Tools.Arguments.{Setting, settings, set_until, and_set}
use pinch.Tools.Numbers.{parse_int}

abbrev tail_flag : String → Bool
tail_flag f = f == "--tail"

abbrev positive_tail : Option ℕ → Result (Option ℕ)
positive_tail none = throw (usage "--tail requires a positive number")
positive_tail (some zero) = throw (usage "--tail requires a positive number")
positive_tail (some (suc n)) = ok (some (suc n))

abbrev read_tail : Option String → Result (Option ℕ)
read_tail none = throw (usage "--tail requires a number")
read_tail (some raw) = positive_tail (parse_int (some raw))

abbrev set_tail : Option ℕ → Setting → Result (Option ℕ)
set_tail tail (flag, v) = if flag == "--tail" then read_tail v else ok tail

-- `parseArgs` of pinch-audit-verify
unfoldable pub parse_tail : List String → Result (Option ℕ)
parse_tail args = set_until set_tail none (settings tail_flag none args)

abbrev audited : Runtime → ActivityFeed → Option ℕ → Report
audited rt f tail =
    let total = length (keep is_hashed f.rows) in
    if eqb total 0 then valid 0 0 none none else verify rt tail f

abbrev reported : Runtime → ActivityFeed → Result (Option ℕ) → Result Report
reported rt f (throw e) = throw e
reported rt f (ok tail) = ok (audited rt f tail)

-- `run` of pinch-audit-verify
unfoldable pub run_audit_verify : Runtime → List String → ActivityFeed → Result Report
run_audit_verify rt args f = reported rt f (parse_tail args)

pub record AuditExportArgs : Type 0 where
  pub output : Option String
  pub since : Option String
  pub until : Option String

abbrev export_flag : String → Bool
export_flag f = f == "--output" || (f == "--since" || f == "--until")

abbrev set_output : AuditExportArgs → Option String → Result AuditExportArgs
set_output a none = throw (usage "--output requires a file path")
set_output a (some path) = ok (record a { output = some path })

abbrev set_export : AuditExportArgs → Setting → Result AuditExportArgs
set_export a (flag, v) =
    if flag == "--output"
    then set_output a v
    else if flag == "--since"
    then ok (record a { since = v })
    else if flag == "--until"
    then ok (record a { until = v })
    else ok a

abbrev check_export : AuditExportArgs → Result AuditExportArgs
check_export a = if (a.output or "") == "" then throw (usage "--output is required") else ok a

-- `parseArgs` of pinch-audit-export
unfoldable pub parse_export_args : List String → Result AuditExportArgs
parse_export_args args = and_set check_export (
    set_until set_export (record { output = none; since = none; until = none })
      (settings export_flag none args))

abbrev is_exported : Runtime → AuditExportArgs → ActivityEvent → Bool
is_exported rt a e = at_least a.since (rt.iso e.created_at) && at_most a.until (rt.iso e.created_at)

-- `run` of pinch-audit-export: the path, and the entries that are written to it with their number
unfoldable pub run_export :
    Runtime → List String → ActivityFeed → Result (String × List ActivityEvent)
run_export rt args f =
    and_set (λ a. ok (a.output or "", by_time (keep (is_exported rt a) f.rows)))
      (parse_export_args args)

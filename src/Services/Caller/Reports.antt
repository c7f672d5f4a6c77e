-- ===== src/Services/Caller/Reports.antt =====
-- As whom the reports of src/trust/trust.module.ts and src/shoutouts/shoutouts.module.ts are written.
use zudue_api.Base.{String, Option, none, some, List, [], ◌∷◌, if◌then◌else◌}
use zudue_api.Json.{Json, null, bool, num, str, arr, obj, prop, truthy}
use zudue_api.Effect.{throw, bad_request, type_error}
use zudue_api.Effect.Rules.{Keeps, Keeps-bind, Keeps-pure, Keeps-throw, Keeps-if, Keeps-attempt}
use zudue_api.Effect.Statements.{Report, insert_report, select_admins}
use zudue_api.Services.Shoutouts.{report_text, report_shoutout}
use zudue_api.Services.Trust.{tell_admins, file_report, report_reason, report_on}
use zudue_api.Services.Caller.{
  OnlyAs, Inside, run_as-OnlyAs, rpc-Inside, rpc-OnlyAs, statement-Inside,
}

report_text-OnlyAs : (u id reason : String) → Keeps (OnlyAs u) (report_text u id reason)
unfolding report_text
report_text-OnlyAs u id reason = Keeps-if _ _ _ (Keeps-throw _) (rpc-OnlyAs u _)

no_reason-OnlyAs :
    (u : String) (v : Option Json)
    → Keeps
        (OnlyAs u)
        {A = Option Json}
        (if truthy v then throw type_error else throw (bad_request "reason is required"))
no_reason-OnlyAs u v = Keeps-if (truthy v) _ _ (Keeps-throw type_error) (Keeps-throw _)

pub report_shoutout-OnlyAs :
    (u id : String) (reason : Option Json) → Keeps (OnlyAs u) (report_shoutout u id reason)
unfolding report_shoutout
report_shoutout-OnlyAs u id (some (str reason)) = report_text-OnlyAs u id reason
report_shoutout-OnlyAs u id none = no_reason-OnlyAs u none
report_shoutout-OnlyAs u id (some null) = no_reason-OnlyAs u (some null)
report_shoutout-OnlyAs u id (some (bool b)) = no_reason-OnlyAs u (some (bool b))
report_shoutout-OnlyAs u id (some (num n)) = no_reason-OnlyAs u (some (num n))
report_shoutout-OnlyAs u id (some (arr xs)) = no_reason-OnlyAs u (some (arr xs))
report_shoutout-OnlyAs u id (some (obj fs)) = no_reason-OnlyAs u (some (obj fs))

tell_admins-Inside :
    (u : String) (r : Report) (admins : List String) → Keeps (Inside u) (tell_admins r admins)
unfolding tell_admins
tell_admins-Inside u r [] = Keeps-pure tt
tell_admins-Inside u r (admin ∷ admins) =
    Keeps-bind _ _ (Keeps-attempt _ (rpc-Inside u _)) (λ a. tell_admins-Inside u r admins)

file_report-OnlyAs : (r : Report) → Keeps (OnlyAs r.reporter_id) (file_report r)
unfolding file_report
file_report-OnlyAs r = run_as-OnlyAs r.reporter_id _ (
    Keeps-bind _ _ (statement-Inside r.reporter_id (insert_report r)) (λ a.
      Keeps-bind _ _ (statement-Inside r.reporter_id select_admins)
        (λ admins. Keeps-bind _ _ (tell_admins-Inside r.reporter_id r admins) (λ b. Keeps-pure _))))

report_reason-OnlyAs :
    (u target : String) (reason id details : Option Json)
    → Keeps (OnlyAs u) (report_reason u target reason id details)
unfolding report_reason
report_reason-OnlyAs u target (some (str reason)) (some id) details =
    Keeps-if _ _ _ (Keeps-throw _) (file_report-OnlyAs _)
report_reason-OnlyAs u target (some (str reason)) none details = Keeps-throw _
report_reason-OnlyAs u target none id details = Keeps-throw _
report_reason-OnlyAs u target (some null) id details = Keeps-throw _
report_reason-OnlyAs u target (some (bool b)) id details = Keeps-throw _
report_reason-OnlyAs u target (some (num n)) id details = Keeps-throw _
report_reason-OnlyAs u target (some (arr xs)) id details = Keeps-throw _
report_reason-OnlyAs u target (some (obj fs)) id details = Keeps-throw _

pub report_on-OnlyAs :
    (u : String) (target : Option Json) (b : Json) → Keeps (OnlyAs u) (report_on u target b)
unfolding report_on
report_on-OnlyAs u (some (str target)) b =
    Keeps-if _ _ _
      (Keeps-if _ _ _
        (report_reason-OnlyAs u target (prop "reason" b) (prop "targetId" b) (prop "details" b))
        (Keeps-throw _))
      (Keeps-throw _)
report_on-OnlyAs u none b = Keeps-throw _
report_on-OnlyAs u (some null) b = Keeps-throw _
report_on-OnlyAs u (some (bool x)) b = Keeps-throw _
report_on-OnlyAs u (some (num n)) b = Keeps-throw _
report_on-OnlyAs u (some (arr xs)) b = Keeps-throw _
report_on-OnlyAs u (some (obj fs)) b = Keeps-throw _

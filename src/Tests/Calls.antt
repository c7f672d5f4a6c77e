-- ===== src/Tests/Calls.antt =====
-- The theorems on src/calls/calls.module.ts at concrete inputs.
use zudue_api.Base.{◌≡◌, refl, true, [], ◌++◌}
use zudue_api.Effect.{history}
use zudue_api.Calls.{complete, call_credential}
use zudue_api.Calls.Ends.{ends, completion_owed, complete-truthful}
use zudue_api.Calls.Access.{mints_checked, call_credential-checked}
use zudue_api.Tests.Samples.{sample}

complete-truthful_example :
    ends (history (complete "fan" "call" sample [])) ≡ completion_owed "fan" "call" sample [] ++ []
complete-truthful_example = complete-truthful "fan" "call" sample []

call_credential-checked_example :
    mints_checked sample "fan" (history (call_credential "fan" "zudue-1" sample [])) ≡ true
call_credential-checked_example = call_credential-checked "fan" "zudue-1" sample [] refl

-- ===== src/Discovery/Tasks/Tests.antt =====
-- Two calls, of which one requests the document while the other waits.
use mcp_server_auth_template.Base.Result.{Result}
use mcp_server_auth_template.Discovery.{OidcMetadata}
use mcp_server_auth_template.Discovery.Tasks.{
  finished, here, next, Calls, Place, Reach, begin_with, fetching, move, rechecking, resume,
  resumes, starting, waiting,
}
use mcp_server_auth_template.Jwks.Resolver.{TokenVerificationError}
use mcp_server_auth_template.Base.{[], refl, some, ℕ, ◌≡◌}
use mcp_server_auth_template.Base.Value.{lookup}
use mcp_server_auth_template.Discovery.Samples.{counting_get, keep_all, known, loads_one, policy}
use mcp_server_auth_template.Discovery.Tasks.Laws.{Reach-IsOrderly}
use mcp_server_auth_template.Discovery.Tasks.Progress.{Involved, Reach-progress, Runs}
use mcp_server_auth_template.Discovery.Tasks.Runs.{IsOrderly}

abbrev places : ℕ → Place
places = move 1 waiting (move 0 fetching (move 0 rechecking (move 0 waiting (λ i. starting))))

abbrev two_calls : Calls ℕ keep_all
two_calls = record { place = places; lock = some 0; cache = []; now = 0; world = 0 }

abbrev start : Calls ℕ keep_all
start = begin_with known policy counting_get loads_one keep_all 0

abbrev first_reads : Calls ℕ keep_all
first_reads = record start { place = move 0 waiting start.place }

abbrev first_locks : Calls ℕ keep_all
first_locks = record first_reads { place = move 0 rechecking first_reads.place; lock = some 0 }

abbrev first_asks : Calls ℕ keep_all
first_asks = record first_locks { place = move 0 fetching first_locks.place }

two_calls_run : Reach known policy counting_get loads_one keep_all 0 two_calls
unfolding resume lookup
two_calls_run =
    next {s = first_asks}
      (next {s = first_locks}
        (next {s = first_reads} (next {s = start} here (resumes 0 refl)) (resumes 0 refl))
        (resumes 0 refl))
      (resumes 1 refl)

Reach-IsOrderly_example :
    IsOrderly known policy counting_get loads_one keep_all two_calls
    × ((i j : ℕ) → places i ≡ fetching → places j ≡ fetching → i ≡ j)
Reach-IsOrderly_example =
    Reach-IsOrderly known policy counting_get loads_one keep_all (λ k t c h. h) 0 two_calls
      two_calls_run

Reach-progress_example :
    (t : Calls ℕ keep_all) × Runs known policy counting_get loads_one keep_all
      (Involved two_calls 1)
      two_calls
      t
    × Reach known policy counting_get loads_one keep_all 0 t
    × ((result : Result TokenVerificationError OidcMetadata) × (t.place 1 ≡ finished result))
Reach-progress_example =
    Reach-progress known policy counting_get loads_one keep_all 0 two_calls 1 two_calls_run refl

-- ===== src/Quota/Tests.antt =====
-- The quota theorems at concrete limits.
use setlyst_api.Prelude.{◌≤◌, refl, arith}
use setlyst_api.Quota.{get, setlists, free}
use setlyst_api.Quota.Guard.{enforce}
use setlyst_api.Quota.Guard.Laws.{ScopeRun, created, refused, deleted, here, next, ScopeRun-within}

setlists_run : ScopeRun free setlists 3 4
unfolding enforce get
setlists_run =
    next {mid = 5} (next {mid = 5} (next {mid = 3} here (created 2 5 refl refl)) (refused 5 refl))
      (deleted 4 (omega arith))

ScopeRun-within_example : 4 ≤ get free setlists
unfolding get
ScopeRun-within_example = ScopeRun-within free setlists 3 4 (omega arith) setlists_run

-- ===== src/Http/Tests.antt =====
-- Concrete runs: handlers over a number, one of which panics.
use go_handbook_for_software.Base.{ℕ, ◌+◌, ◌≡◌, refl, true, false, List, [], ◌∷◌, some}
use go_handbook_for_software.Http.{
  write_header, write, Handler, recover, request_id, access_log, respond, no_response,
}
use go_handbook_for_software.Http.Recovery.{recover_decides}

abbrev pays : Handler ℕ ℕ
pays r s = record {
  state = s + r;
  events = write_header 201 ∷ write "done" ∷ [];
  logs = [];
  panicked = false;
}

abbrev breaks : Handler ℕ ℕ
breaks r s = record { state = s; events = []; logs = []; panicked = true }

abbrev layers : List (Handler ℕ ℕ → Handler ℕ ℕ)
layers = access_log ∷ request_id "req_1" ∷ recover ∷ []

recover_decides_example : (respond (recover breaks 1 2).events no_response).status ≡ some 500
recover_decides_example = ((recover_decides breaks 1 2 tt).3 refl).0 refl

-- ===== src/Transport/Frontend/Tests.antt =====
-- The frontend of src/frontend/tcp.rs with one port.
use coresplitter.Base.{◌≤◌, ◌≡◌, refl, true, false, List, [], ◌∷◌, arith}
use coresplitter.Transport.Frontend.{
  Frontend, closed, listening, Event, radio, saw_up, saw_down, accepted, finished, run, step,
  bind_all, handle_client,
}
use coresplitter.Transport.Frontend.Clients.{
  IsSound, run-IsSound, ids, drops, is_listening, run-closed,
}

abbrev fresh : Frontend
fresh = record {
  bind_addrs = "0.0.0.0:5000" ∷ [];
  phase = closed;
  radio_up = false;
  stopping = false;
  next_client_id = 1;
  clients = [];
}

-- Two clients come, and one goes.
abbrev events : List Event
events = radio true ∷ saw_up (λ addr. true) ∷ accepted 5000 ∷ accepted 5000 ∷ finished 1 ∷ []

abbrev open_frontend : Frontend
open_frontend = record fresh {
  phase = listening ("0.0.0.0:5000" ∷ []);
  radio_up = true;
  next_client_id = 3;
  clients = (2, 5000) ∷ [];
}

run-events : run events fresh ≡ open_frontend
unfolding run step bind_all handle_client
run-events = refl

run-IsSound_example : IsSound (run events fresh) × (1 ≤ (run events fresh).next_client_id)
run-IsSound_example =
    run-IsSound events fresh (omega arith) (record { whole = tt; below = tt; only = tt })

abbrev lost : Frontend
lost = record open_frontend { radio_up = false }

run-closed_example :
    let g = run (saw_down ∷ drops (ids lost.clients)) lost in
    (is_listening g.phase ≡ false) × (g.clients ≡ [])
run-closed_example = run-closed lost refl

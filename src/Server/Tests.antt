-- ===== src/Server/Tests.antt =====
-- The two loops on an endpoint with no clients. Of events: one client hangs up, a call times out,
-- another client has sent something when the loop is told to stop. Of arrivals: a client, then an
-- event with nobody to accept, then the server socket is closed.
use c10k.Base.{
  ℕ, zero, suc, ◌<◌, ◌^◌, ◌≡◌, refl, sym, ◌⊎◌, true, false, none, some, List, [], ◌∷◌, ◌++◌, map,
  get_elem?, arith,
}
use c10k.Boolset.{Boolset}
use c10k.Base.Memory.{Malloc, Gives}
use c10k.Boolset.Valid.{IsValid, has_word_zero}
use c10k.Endpoint.{Endpoint}
use c10k.Endpoint.Open.{IsOpen, SameFds}
use c10k.Endpoint.Calls.{Tracks}
use c10k.Endpoint.Watched.{watched}
use c10k.Endpoint.Waits.{hung}
use c10k.Calc.{unpack_event}
use c10k.Server.{Arrival, Wake, accept_proc, client_event_processor}
use c10k.Server.Accepting.{waiting, hung_up, silent, times_out, accept_proc-Tracks}
use c10k.Server.Loops.{arrived, handed, some_event, idles, client_event_processor-handed}

abbrev clients : Boolset
clients = record { size = 1; cells = some 0 ∷ [] }

clients-IsValid : IsValid clients
clients-IsValid = record { size_eq = refl; size_le = omega arith; words = words }
  where
    words : (i : ℕ) → i < 1 → (w : ℕ) × (get_elem? clients.cells i ≡ some (some w)) × (w < 2 ^ 64)
    words zero h = (0, refl, omega arith)
    words (suc i) h = absurd (omega arith)

abbrev endpoint : Endpoint
endpoint = record {
  srv_fd = 7;
  ep_listener = 8;
  ep_selector = 9;
  shutdown_fd = 10;
  connected_clients_fds = clients;
  connected_clients_lock = false;
  disconnect_queue_lock = false;
  disconnect_queue = record { top = 0 };
  heap = λ _. none;
  calls = [];
}

endpoint-IsOpen : IsOpen endpoint []
endpoint-IsOpen = record {
  clients = clients-IsValid;
  clients_free = refl;
  queue_free = refl;
  queue = record { top = refl; chain = tt };
}

abbrev wakes : List Wake
wakes =
    record { pending = some ((record { events = 0x2001; fd = 20 }, 80) ∷ []); stop = false }
    ∷ record { pending = some []; stop = false }
    ∷ record { pending = some ((record { events = 1; fd = 21 }, 96) ∷ []); stop = true }
    ∷ []

client_event_processor-handed_example :
    ((idles false wakes ≡ true) × (client_event_processor endpoint wakes ≡ none))
    ⊎ ((idles false wakes ≡ false)
        × (jobs : List ℕ) × (e' : Endpoint) × (client_event_processor endpoint wakes
            ≡ some (jobs, e'))
        × (map unpack_event jobs ≡ handed wakes)
        × IsOpen e' (hung (arrived wakes) ++ []))
unfolding arrived
client_event_processor-handed_example =
    client_event_processor-handed wakes endpoint [] endpoint-IsOpen
      (omega arith, refl, (omega arith, tt), (omega arith, refl, tt, tt))
      (omega arith, omega arith, (omega arith, omega arith, tt))

-- With an event first, the timeout behind it does no harm; with none it does.
timely : idles false wakes ≡ false
unfolding idles some_event
timely = refl

idle : idles false (record { pending = some []; stop = false } ∷ wakes) ≡ true
unfolding idles some_event
idle = refl

abbrev ample : Malloc
ample _ = true

ample-Gives : (n : ℕ) → Gives ample n
ample-Gives n m h = refl

endpoint-Tracks : Tracks endpoint
unfolding watched
endpoint-Tracks fd other = sym (has_word_zero fd)

abbrev arrivals : List Arrival
arrivals =
    record { event = some (record { events = 1; fd = 7 }); incoming = 20 ∷ []; stop = false }
    ∷ record { event = some (record { events = 1; fd = 7 }); incoming = []; stop = false }
    ∷ record { event = some (record { events = 0x10; fd = 7 }); incoming = []; stop = false }
    ∷ []

accept_proc-Tracks_example :
    ((times_out arrivals ≡ true) × (accept_proc ample 1 endpoint arrivals ≡ none))
    ⊎ ((times_out arrivals ≡ false)
        × (e' : Endpoint) × (accept_proc ample 1 endpoint arrivals ≡ some e')
        × IsOpen e' (waiting [] arrivals)
        × Tracks e'
        × SameFds endpoint e')
accept_proc-Tracks_example =
    accept_proc-Tracks ample (ample-Gives (2 ^ 61)) 1 arrivals endpoint [] endpoint-IsOpen
      endpoint-Tracks tt (omega arith) ((omega arith, tt), (tt, (tt, tt)))

answered : times_out arrivals ≡ false
unfolding times_out silent hung_up
answered = refl

-- ===== src/Endpoint/Open.antt =====
-- Open endpoints: the record of connected clients, the two mutexes and the disconnection queue.
use c10k.Base.{ℕ, ◌≡◌, ◌∙◌, ap, Bool, true, false, none, some, if◌then◌else◌}
use c10k.Boolset.{Boolset}
use c10k.Boolset.Valid.{IsValid, has}
use c10k.Stack.Segment.{Nodes, Holds}
use c10k.Endpoint.{Endpoint, lock_clients, lock_queue}

-- An endpoint that no function is in the middle of, with these nodes in its disconnection queue.
pub record IsOpen (e : Endpoint) (nodes : Nodes) : Type 0 where
  pub clients : IsValid e.connected_clients_fds
  pub clients_free : e.connected_clients_lock ≡ false
  pub queue_free : e.disconnect_queue_lock ≡ false
  pub queue : Holds e.heap e.disconnect_queue nodes

-- Whether the endpoint has the client on record.
abbrev pub connected : Endpoint → ℕ → Bool
connected e fd = has e.connected_clients_fds fd

-- The two endpoints have the same four descriptors.
abbrev pub SameFds : Endpoint → Endpoint → Type 0
SameFds e e' =
    (e'.srv_fd ≡ e.srv_fd)
    × (e'.ep_listener ≡ e.ep_listener)
    × (e'.ep_selector ≡ e.ep_selector)
    × (e'.shutdown_fd ≡ e.shutdown_fd)

pub SameFds-trans : (e e1 e2 : Endpoint) → SameFds e e1 → SameFds e1 e2 → SameFds e e2
SameFds-trans e e1 e2 (srv, listener, selector, shutdown) (srv', listener', selector', shutdown') =
    (srv' ∙ srv, listener' ∙ listener, selector' ∙ selector, shutdown' ∙ shutdown)

abbrev pub with_clients : Endpoint → Boolset → Endpoint
with_clients e clients = record e { connected_clients_fds = clients }

pub lock_clients-eq :
    (e : Endpoint)
    → e.connected_clients_lock ≡ false
    → lock_clients e ≡ some (record e { connected_clients_lock = true })
unfolding lock_clients
lock_clients-eq e free =
    ap (λ b. if b then none else some (record e { connected_clients_lock = true })) free

pub lock_queue-eq :
    (e : Endpoint)
    → e.disconnect_queue_lock ≡ false
    → lock_queue e ≡ some (record e { disconnect_queue_lock = true })
unfolding lock_queue
lock_queue-eq e free =
    ap (λ b. if b then none else some (record e { disconnect_queue_lock = true })) free

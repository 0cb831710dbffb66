-- ===== src/Endpoint/Drain.antt =====
-- The pass of `endpoint_disconnect_all_clients` over the record of clients.
use c10k.Base.{
  ℕ, zero, suc, ◌+◌, ◌*◌, ◌^◌, ◌≤◌, ◌<◌, ◌≡◌, refl, ap, sym, subst, ◌∙◌, ◌≢◌, inl, inr, true, false,
  Option, none, some, List, [], ◌++◌, arith, dec_lt, ℕ_discrete, Bool-cases, ◌==◌, if◌then◌else◌,
}
use mathlib.Core.List.{append-nil, append_assoc}
use c10k.Base.Memory.{Malloc, Gives}
use c10k.Boolset.{Boolset}
use c10k.Boolset.Valid.{IsValid, has, has_beyond}
use c10k.Boolset.Set.{set-has}
use c10k.Boolset.Foreach.{scan, IsTame}
use c10k.Endpoint.{Endpoint, Syscall, ask, hang_up, disconnect_all_foreach}
use c10k.Endpoint.Open.{connected}

-- The calls that end the connections of all indices in `clients`, among `count` from `index` on.
unfoldable pub farewells : Endpoint → (count index : ℕ) → List Syscall
farewells e zero index = []
farewells e (suc count) index =
    (if connected e index then hang_up e index else []) ++ farewells e count (index + 1)

-- What a pass over `count` indices from `index` on leaves.
pub record Drained (e : Endpoint) (count index : ℕ) (out : Option Endpoint) : Type 0 where
  pub clients : Boolset
  pub returns :
      out
      ≡ some
          (record e { connected_clients_fds = clients; calls = e.calls ++ farewells e count index })
  pub valid : IsValid clients
  pub gone : (j : ℕ) → index ≤ j → j < index + count → has clients j ≡ false
  pub kept : (j : ℕ) → j < index → has clients j ≡ connected e j
  pub beyond : (j : ℕ) → index + count ≤ j → has clients j ≡ connected e j

pub farewells-later :
    (e e' : Endpoint) (count index : ℕ)
    → e'.ep_selector ≡ e.ep_selector
    → ((j : ℕ) → index ≤ j → connected e' j ≡ connected e j)
    → farewells e' count index ≡ farewells e count index
unfolding farewells
farewells-later e e' zero index sel same = refl
farewells-later e e' (suc count) index sel same = rw (
  same index (omega arith),
  sel,
  farewells-later e e' count (index + 1) sel λ j h. same j (omega arith),
)

abbrev pub clients_of : Endpoint → Boolset
clients_of e = e.connected_clients_fds

module _ (malloc : Malloc) (gives : Gives malloc (2 ^ 61)) where
  inside : (b : Boolset) (i : ℕ) → IsValid b → has b i ≡ true → i < b.size * 64
  inside b i v h = elim (dec_lt i (b.size * 64)) [
    | yes p ↦ p
    | no p ↦ let out = has_beyond b i (omega (arith, v.size_eq)) in cc
  ]

  -- The callback, called for a client on record.
  foreach-turn :
      (e : Endpoint) (i : ℕ)
      → IsValid e.connected_clients_fds
      → connected e i ≡ true
      → (clients : Boolset) × (disconnect_all_foreach malloc i e
          ≡ some (record e { connected_clients_fds = clients; calls = e.calls ++ hang_up e i }))
        × IsValid clients
        × (clients.size ≡ e.connected_clients_fds.size)
        × ((j : ℕ) → has clients j ≡ (if j == i then false else connected e j))
  unfolding disconnect_all_foreach ask
  foreach-turn e i v h =
      let low = inside e.connected_clients_fds i v h in
      let (clients, runs, v', size, one) =
        set-has malloc e.connected_clients_fds i 0 gives v (omega (arith, v.size_le)) in
      (clients, rw runs, v', omega (arith, size, low), one)

  result_unique :
      (e s t : Endpoint) (i : ℕ)
      → disconnect_all_foreach malloc i e ≡ some s
      → disconnect_all_foreach malloc i e ≡ some t
      → s.connected_clients_fds ≡ t.connected_clients_fds
  result_unique e s t i p q = some_clients s t (sym p ∙ q)
    where
      some_clients :
          (x y : Endpoint) → some x ≡ some y → x.connected_clients_fds ≡ y.connected_clients_fds
      some_clients x y eq = ap clients_or eq
        where
          clients_or : Option Endpoint → Boolset
          clients_or none = x.connected_clients_fds
          clients_or (some z) = z.connected_clients_fds

  pub foreach-IsTame : IsTame clients_of (disconnect_all_foreach malloc)
  foreach-IsTame = record {
    valid = λ i s s' v h e.
        let (c, runs, v', size, one) = foreach-turn s i v h in
        subst IsValid (result_unique s _ s' i runs e) v';
    same_size = λ i s s' v h e.
        let (c, runs, v', size, one) = foreach-turn s i v h in
        ap (λ b. b.size) (result_unique s s' _ i e runs) ∙ size;
    later = λ i s s' v h e j lt.
        let (c, runs, v', size, one) = foreach-turn s i v h in
        let other : (j == i) ≡ false = ground arith in
        ap (λ b. has b j) (result_unique s s' _ i e runs) ∙ rw other at (one j);
  }

  pub scan-Drained :
      (count index : ℕ) (e : Endpoint)
      → IsValid e.connected_clients_fds
      → Drained e count index (scan clients_of (disconnect_all_foreach malloc) count index e)
  unfolding scan farewells
  scan-Drained zero index e v = record {
    clients = e.connected_clients_fds;
    returns = rw append-nil;
    valid = v;
    gone = λ j low high. absurd (omega arith);
    kept = λ j h. refl;
    beyond = λ j h. refl;
  }
  scan-Drained (suc count) index e v = elim (Bool-cases (connected e index)) [
    | inl on ↦
        let (c, runs, v', size, one) = foreach-turn e index v on in
        let e1 = record e { connected_clients_fds = c; calls = e.calls ++ hang_up e index } in
        let rest = scan-Drained count (index + 1) e1 v' in
        record {
          clients = rest.clients;
          returns =
              rw (on, runs)
                (rest.returns
                  ∙ ap (λ l. some (record e { connected_clients_fds = rest.clients; calls = l }))
                      (after_hang_up c (others c one)));
          valid = rest.valid;
          gone = λ j low high. elim (ℕ_discrete j index) [
            | yes at ↦ rest.kept j (omega arith) ∙ taken c one j at
            | no ne ↦ rest.gone j (omega arith) (omega arith)
          ];
          kept = λ j h. rest.kept j (omega arith) ∙ others c one j (omega arith);
          beyond = λ j h. rest.beyond j (omega arith) ∙ others c one j (omega arith);
        }
    | inr off ↦
        let rest = scan-Drained count (index + 1) e v in
        record {
          clients = rest.clients;
          returns = rw off rest.returns;
          valid = rest.valid;
          gone = λ j low high. elim (ℕ_discrete j index) [
            | yes at ↦ rw at (rest.kept index (omega arith) ∙ off)
            | no ne ↦ rest.gone j (omega arith) (omega arith)
          ];
          kept = λ j h. rest.kept j (omega arith);
          beyond = λ j h. rest.beyond j (omega arith);
        }
  ]
    where
      others :
          (c : Boolset)
          → ((j : ℕ) → has c j ≡ (if j == index then false else connected e j))
          → (j : ℕ) → j ≢ index
          → has c j ≡ connected e j
      others c one j ne = let miss : (j == index) ≡ false = ground arith in rw miss at (one j)

      taken :
          (c : Boolset)
          → ((j : ℕ) → has c j ≡ (if j == index then false else connected e j))
          → (j : ℕ) → j ≡ index
          → has c j ≡ false
      taken c one j at = let hit : (j == index) ≡ true = ground arith in rw hit at (one j)

      after_hang_up :
          (c : Boolset)
          → ((j : ℕ) → j ≢ index → has c j ≡ connected e j)
          → (e.calls ++ hang_up e index)
              ++ farewells
                  (record e { connected_clients_fds = c; calls = e.calls ++ hang_up e index })
                  count
                  (index + 1)
            ≡ e.calls ++ (hang_up e index ++ farewells e count (index + 1))
      after_hang_up c same =
          append_assoc (e.calls) (hang_up e index) _
          ∙ ap (λ l. e.calls ++ (hang_up e index ++ l))
              (farewells-later e
                (record e { connected_clients_fds = c; calls = e.calls ++ hang_up e index }) count
                (index + 1) refl λ j h. same j (omega arith))

-- ===== src/Server/Loops.antt =====
-- What `client_event_processor` hands to the pool.
use c10k.Base.{
  ℕ, ◌^◌, ◌<◌, ◌≡◌, refl, ap, ap₂, sym, subst, ◌∙◌, ◌⊎◌, Bool, true, false, ◌||◌, Option, none,
  some, List, [], ◌∷◌, ◌++◌, map, take, bit_and, ltb, ◌==◌, if◌then◌else◌, Bool-cases, Option-cases,
  inl, inr, arith,
}
use mathlib.Core.Option
use mathlib.Core.List.{append-nil, append_assoc, map-append}
use c10k.Base.Memory.{◌>>=◌}
use c10k.Stack.{Ptr, Heap}
use c10k.Stack.Segment.{Nodes}
use c10k.Endpoint.{Endpoint, EpollEvent, epollrdhup, socket_fds_of, wait_event}
use c10k.Endpoint.Open.{IsOpen}
use c10k.Endpoint.Waits.{hung, IsApart, Unused, Unused-other, events_of, wait_event-one}
use c10k.Calc.{pack_event, unpack_event}
use c10k.Calc.Laws.{unpack_event-pack_event, pack_event-negative}
use c10k.Server.{Wake, ends, latest, posts, event_loop, minus_one, client_event_processor}

-- What each call of `endpoint_wait_event` stores, up to the call after which the loop ends.
unfoldable pub arrived : List Wake → List (EpollEvent × Ptr)
arrived [] = []
arrived (w ∷ wakes) =
    let rest = arrived wakes in
    take 1 (events_of w.pending) ++ elim (ends w.pending w.stop) [ true ↦ [] | false ↦ rest ]

-- The descriptor and the flags of each of these but the last, for which the loop ends before it
-- posts.
pub handed : List Wake → List (ℕ × ℕ)
handed [] = []
handed (w ∷ wakes) =
    let rest = handed wakes in
    elim (ends w.pending w.stop) [
      | true ↦ []
      | false ↦ socket_fds_of (take 1 (events_of w.pending)) ++ rest
    ]

-- Descriptors and flags are not negative as `int`.
abbrev pub Fits : List (EpollEvent × Ptr) → Type 0
Fits [] = Unit
Fits ((event, _) ∷ events) = (event.fd < 2 ^ 31) × (event.events < 2 ^ 31) × Fits events

-- There is an event among these.
unfoldable pub some_event : List (EpollEvent × Ptr) → Bool
some_event [] = false
some_event (_ ∷ _) = true

-- The loop goes on after a call that stored no event, when no event has come before; `seen` says
-- that one has.
unfoldable pub idles : (seen : Bool) → List Wake → Bool
idles seen [] = false
idles seen (w ∷ wakes) =
    let came = seen || some_event (events_of w.pending) in
    let rest = idles came wakes in
    if ends w.pending w.stop then false else if came then rest else true

-- What is in `event_flag` once an event has come, and before.
abbrev Held : Bool → ℕ → ℕ → Type 0
Held true client event_flag = (client < 2 ^ 31) × (event_flag < 2 ^ 31)
Held false client event_flag = event_flag ≡ minus_one

Unused-same :
    (h h' : Heap) (events : List (EpollEvent × Ptr))
    → ((a : Ptr) → h' a ≡ h a)
    → Unused h events
    → Unused h' events
Unused-same h h' [] same u = tt
Unused-same h h' ((_, a) ∷ events) same (pos, free, apart, u) =
    (pos, same a ∙ free, apart, Unused-same h h' events same u)

-- The addresses for the first event, and those for the rest once it has been stored.
Unused-first :
    (h : Heap) (pending rest : List (EpollEvent × Ptr))
    → Unused h (take 1 pending ++ rest)
    → Unused h (take 1 pending)
      × ((h' : Heap) → ((a : Ptr) → IsApart a (take 1 pending) → h' a ≡ h a) → Unused h' rest)
Unused-first h [] rest u = (tt, λ h' same. Unused-same h h' rest (λ a. same a tt) u)
Unused-first h ((event, a) ∷ pending) rest (pos, free, apart, u) = (
  (pos, free, tt, tt),
  λ h' same. Unused-other h h' a rest (λ b ne. same b (λ x. ne (sym x), tt)) apart u,
)

Fits-first :
    (pending rest : List (EpollEvent × Ptr))
    → Fits (take 1 pending ++ rest)
    → Fits (take 1 pending) × Fits rest
Fits-first [] rest f = (tt, f)
Fits-first ((event, a) ∷ pending) rest (low, flags, f) = ((low, flags, tt), f)

hung-append : (xs ys : List (EpollEvent × Ptr)) → hung (xs ++ ys) ≡ hung ys ++ hung xs
unfolding hung
hung-append [] ys = sym (append-nil (hung ys))
hung-append ((event, a) ∷ xs) ys =
    let last : Nodes = if bit_and event.events epollrdhup == 0 then [] else (a, event.fd) ∷ [] in
    ap (λ l. l ++ last) (hung-append xs ys) ∙ append_assoc (hung ys) (hung xs) last

some-injective : {x y : ℕ × ℕ} → some x ≡ some y → x ≡ y
some-injective {x} e = ap or_x e
  where
    or_x : Option (ℕ × ℕ) → ℕ × ℕ
    or_x none = x
    or_x (some z) = z

pack_event-fits :
    (client event_flag : ℕ)
    → client < 2 ^ 31
    → event_flag < 2 ^ 31
    → (arg : ℕ) × (pack_event client event_flag ≡ some arg)
      × (unpack_event arg ≡ (client, event_flag))
pack_event-fits client event_flag low flags =
    let back = unpack_event-pack_event client event_flag low (omega arith) in
    let fits : ltb event_flag (2 ^ 31) ≡ true = ground arith in
    elim (Option-cases (pack_event client event_flag)) [
      | inl gone ↦ absurd (cc (rw (gone, fits) at back))
      | inr (arg, packs) ↦ (arg, packs, some-injective (rw (packs, fits) at back))
    ]

pack_event-unset :
    (client event_flag : ℕ) → event_flag ≡ minus_one → pack_event client event_flag ≡ none
pack_event-unset client event_flag unset = rw unset (pack_event-negative client)

-- What `endpoint_wait_event` stores of an answer.
abbrev stored_of : Option (List (EpollEvent × Ptr)) → Option (List (ℕ × ℕ))
stored_of answer = Option.map (λ pending. socket_fds_of (take 1 pending)) answer

ends-stored :
    (answer : Option (List (EpollEvent × Ptr))) (stop : Bool)
    → ends (stored_of answer) stop ≡ ends answer stop
ends-stored none stop = refl
ends-stored (some pending) stop = refl

latest-Held :
    (seen : Bool) (client event_flag : ℕ) (answer : Option (List (EpollEvent × Ptr)))
    → Held seen client event_flag
    → Fits (take 1 (events_of answer))
    → let held = latest (stored_of answer) (client, event_flag) in
      Held (seen || some_event (events_of answer)) held.0 held.1
unfolding latest some_event socket_fds_of
latest-Held true client event_flag none h f = h
latest-Held false client event_flag none h f = h
latest-Held true client event_flag (some []) h f = h
latest-Held false client event_flag (some []) h f = h
latest-Held true client event_flag (some ((event, a) ∷ pending)) h (low, flags, _) = (low, flags)
latest-Held false client event_flag (some ((event, a) ∷ pending)) h (low, flags, _) = (low, flags)

unpack-posts :
    (client event_flag arg : ℕ) (answer : Option (List (EpollEvent × Ptr)))
    → unpack_event arg ≡ latest (stored_of answer) (client, event_flag)
    → map unpack_event (posts (stored_of answer) arg) ≡ socket_fds_of (take 1 (events_of answer))
unfolding posts latest socket_fds_of
unpack-posts client event_flag arg none e = refl
unpack-posts client event_flag arg (some []) e = refl
unpack-posts client event_flag arg (some (_ ∷ _)) e = ap (λ r. r ∷ []) e

-- Undefined, or back with a job for each event.
abbrev Outcome : (seen : Bool) → (client event_flag : ℕ) → Endpoint → Nodes → List Wake → Type 0
Outcome seen client event_flag e nodes wakes =
    ((idles seen wakes ≡ true) × (event_loop client event_flag e wakes ≡ none))
    ⊎ ((idles seen wakes ≡ false)
        × (jobs : List ℕ) × (e' : Endpoint) × (event_loop client event_flag e wakes
            ≡ some (jobs, e'))
        × (map unpack_event jobs ≡ handed wakes)
        × IsOpen e' (hung (arrived wakes) ++ nodes))

-- A round that goes on.
module _ (w : Wake) (wakes : List Wake) (seen : Bool) (client event_flag : ℕ) (e e1 : Endpoint)
    (nodes : Nodes) (on : ends w.pending w.stop ≡ false)
    (runs : wait_event e w.pending 1 ≡ some (stored_of w.pending, e1)) where
  abbrev held : ℕ × ℕ
  held = latest (stored_of w.pending) (client, event_flag)

  -- No event has come yet.
  idle :
      (seen || some_event (events_of w.pending)) ≡ false
      → pack_event held.0 held.1 ≡ none
      → Outcome seen client event_flag e nodes (w ∷ wakes)
  unfolding event_loop idles
  idle never gone =
      inl (rw (on, never) refl, rw (runs, ◌>>=◌, ends-stored w.pending w.stop, on, gone) refl)

  -- One has.
  round :
      (arg : ℕ)
      → (seen || some_event (events_of w.pending)) ≡ true
      → pack_event held.0 held.1 ≡ some arg
      → unpack_event arg ≡ held
      → Outcome true held.0 held.1 e1 (hung (take 1 (events_of w.pending)) ++ nodes) wakes
      → Outcome seen client event_flag e nodes (w ∷ wakes)
  unfolding event_loop idles handed arrived
  round arg came packs back (inl (late, gone)) =
      inl (rw (on, came) late, rw (runs, ◌>>=◌, ends-stored w.pending w.stop, on, packs, gone) refl)
  round arg came packs back (inr (prompt, jobs, e2, more, same, o2)) =
      let first = take 1 (events_of w.pending) in
      let joined : hung (arrived wakes) ++ (hung first ++ nodes)
          ≡ hung (first ++ arrived wakes) ++ nodes =
        sym (append_assoc (hung (arrived wakes)) (hung first) nodes)
        ∙ ap (λ l. l ++ nodes) (sym (hung-append first (arrived wakes))) in
      inr (
        rw (on, came) prompt,
        posts (stored_of w.pending) arg ++ jobs,
        e2,
        rw (runs, ◌>>=◌, ends-stored w.pending w.stop, on, packs, more) refl,
        rw (handed, on)
            (map-append unpack_event (posts (stored_of w.pending) arg) jobs
              ∙ ap₂ (λ k l. k ++ l) (unpack-posts client event_flag arg w.pending back) same),
        rw (arrived, on) (subst (IsOpen e2) joined o2),
      )

event_loop-handed :
    (wakes : List Wake) (seen : Bool) (client event_flag : ℕ) (e : Endpoint) (nodes : Nodes)
    → Held seen client event_flag
    → IsOpen e nodes
    → Unused e.heap (arrived wakes)
    → Fits (arrived wakes)
    → Outcome seen client event_flag e nodes wakes
unfolding event_loop arrived handed idles
event_loop-handed [] seen client event_flag e nodes h o u f =
    inr (refl, [], e, refl, refl, unfold hung in o)
event_loop-handed (w ∷ wakes) seen client event_flag e nodes h o u f =
    let first = take 1 (events_of w.pending) in
    elim (Bool-cases (ends w.pending w.stop)) [
      | inl over ↦
          let all : arrived (w ∷ wakes) ≡ first = rw (over, append-nil) in
          let (e1, runs, o1, _) =
            wait_event-one e nodes w.pending o (subst (Unused e.heap) all u) in
          inr (
            rw over refl,
            [],
            e1,
            rw (runs, ◌>>=◌, ends-stored w.pending w.stop, over) refl,
            rw (handed, over) refl,
            rw (over, append-nil) o1,
          )
      | inr on ↦
          let all : arrived (w ∷ wakes) ≡ first ++ arrived wakes = rw on in
          let (u1, u2) =
            Unused-first e.heap (events_of w.pending) (arrived wakes)
              (subst (Unused e.heap) all u) in
          let (f1, f2) = Fits-first (events_of w.pending) (arrived wakes) (subst Fits all f) in
          let (e1, runs, o1, elsewhere) = wait_event-one e nodes w.pending o u1 in
          let now = latest (stored_of w.pending) (client, event_flag) in
          let h1 = latest-Held seen client event_flag w.pending h f1 in
          elim (Bool-cases (seen || some_event (events_of w.pending))) [
            | inr never ↦
                let unset : now.1 ≡ minus_one = subst (λ b. Held b now.0 now.1) never h1 in
                idle w wakes seen client event_flag e e1 nodes on runs never
                  (pack_event-unset now.0 now.1 unset)
            | inl came ↦
                let (low, flags) = subst (λ b. Held b now.0 now.1) came h1 in
                let (arg, packs, back) = pack_event-fits now.0 now.1 low flags in
                round w wakes seen client event_flag e e1 nodes on runs arg came packs back (
                  event_loop-handed wakes true now.0 now.1 e1 (hung first ++ nodes) (low, flags) o1
                    (u2 e1.heap elsewhere) f2)
          ]
    ]

-- On an open endpoint, with unused addresses from `malloc` and descriptors and flags that are not
-- negative: if the loop of `client_event_processor` goes on after a call of `endpoint_wait_event`
-- that stored no event, as after a timeout, when no event has come before, then it is undefined,
-- since it shifts -1. If not, it ends by a failure of `epoll_wait`, by `stop` or not yet, and
-- has posted one job for each event that a call before the last one stores, in order; what the job
-- unpacks from its argument is the descriptor and the flags of the event. The clients of all events
-- with EPOLLRDHUP, and no others, are then on the disconnection queue, on top of those that were
-- there.
pub client_event_processor-handed :
    (wakes : List Wake) (e : Endpoint) (nodes : Nodes)
    → IsOpen e nodes
    → Unused e.heap (arrived wakes)
    → Fits (arrived wakes)
    → ((idles false wakes ≡ true) × (client_event_processor e wakes ≡ none))
      ⊎ ((idles false wakes ≡ false)
          × (jobs : List ℕ) × (e' : Endpoint) × (client_event_processor e wakes ≡ some (jobs, e'))
          × (map unpack_event jobs ≡ handed wakes)
          × IsOpen e' (hung (arrived wakes) ++ nodes))
unfolding client_event_processor
client_event_processor-handed wakes e nodes o u f =
    event_loop-handed wakes false minus_one minus_one e nodes refl o u f

-- ===== src/Boolset/Foreach.antt =====
-- `boolset_foreach` against one pass over all indices in ascending order.
use c10k.Base.{
  ℕ, zero, suc, ◌+◌, ◌-◌, ◌*◌, ◌/◌, ◌^◌, ◌≤◌, ◌<◌, bit_and, ◌≡◌, refl, ap, ap₂, sym, subst, ◌∙◌,
  Bool, true, false, not, Option, none, some, get_elem?, arith, ltb, ◌==◌, ℕ_discrete, lt→ltb,
  if◌then◌else◌,
}
use c10k.Base.Bits.{bit, bit-zero}
use c10k.Base.Memory.{◌>>=◌, load}
use c10k.Boolset.{Boolset, u64, mask_of, foreach_bit, foreach_word, foreach}
use c10k.Boolset.Words.{is_set, test-eq-is_set}
use c10k.Boolset.Valid.{IsValid, has, has_of_word}

if_not {ℓ} : {A : Type ℓ} (b : Bool) (x y : A) → (if b then x else y) ≡ (if not b then y else x)
if_not true x y = refl
if_not false x y = refl

module _ {ℓ} {S : Type ℓ} where
  some_eq : (x y : S) → some x ≡ some y → x ≡ y
  some_eq x y e = cc

  bind_cong :
      (m : Option S) (f g : S → Option S)
      → ((x : S) → m ≡ some x → f x ≡ g x)
      → (m >>= f) ≡ (m >>= g)
  bind_cong none f g h = refl
  bind_cong (some x) f g h = h x refl

  bind_assoc : (m : Option S) (f g : S → Option S) → (m >>= λ x. f x >>= g) ≡ ((m >>= f) >>= g)
  bind_assoc none f g = refl
  bind_assoc (some x) f g = refl

  bind_some :
      {y : S} (m : Option S) (f : S → Option S)
      → (m >>= f) ≡ some y
      → (x : S) × (m ≡ some x) × (f x ≡ some y)
  bind_some none f e = cc
  bind_some (some x) f e = (x, refl, e)

module _ {ℓ} {S : Type ℓ} (set_of : S → Boolset) (callback : ℕ → S → Option S) where
  -- For `count` indices from `index` on: call back for each that is in the set when its turn comes.
  unfoldable pub scan : (count index : ℕ) → S → Option S
  scan zero index s = some s
  scan (suc count) index s = do
    s' ← if has (set_of s) index then callback index s else some s
    scan count (index + 1) s'

  -- What happens when the turn of `index` comes.
  abbrev turn : ℕ → S → Option S
  turn index s = if has (set_of s) index then callback index s else some s

  -- A callback that, called for an index in the set, leaves the set valid, of the same size, and
  -- with the same later indices in it.
  pub record IsTame : Type ℓ where
    pub valid :
        (i : ℕ) (s s' : S)
        → IsValid (set_of s)
        → has (set_of s) i ≡ true
        → callback i s ≡ some s'
        → IsValid (set_of s')
    pub same_size :
        (i : ℕ) (s s' : S)
        → IsValid (set_of s)
        → has (set_of s) i ≡ true
        → callback i s ≡ some s'
        → (set_of s').size ≡ (set_of s).size
    pub later :
        (i : ℕ) (s s' : S)
        → IsValid (set_of s)
        → has (set_of s) i ≡ true
        → callback i s ≡ some s'
        → (j : ℕ) → i < j
        → has (set_of s') j ≡ has (set_of s) j

  module _ (tame : IsTame) where
    -- One round of either loop: a state it can leave.
    record Round (index : ℕ) (s s' : S) : Type 0 where
      ok : IsValid (set_of s')
      size : (set_of s').size ≡ (set_of s).size
      rest : (j : ℕ) → index < j → has (set_of s') j ≡ has (set_of s) j

    Round-turn :
        (index : ℕ) (s s' : S) (b : Bool)
        → IsValid (set_of s)
        → has (set_of s) index ≡ b
        → (if b then callback index s else some s) ≡ some s'
        → Round index s s'
    Round-turn index s s' true v h e = record {
      ok = tame.valid index s s' v h e;
      size = tame.same_size index s s' v h e;
      rest = tame.later index s s' v h e;
    }
    Round-turn index s s' false v h e =
        subst (Round index s) (some_eq s s' e) (record { ok = v; size = refl; rest = λ j p. refl })

    -- The inner loop is that pass over the rest of one word.
    foreach_bit-eq-scan :
        (rounds minor major value : ℕ) (s : S)
        → minor + rounds ≡ 64
        → major < 2 ^ 58
        → IsValid (set_of s)
        → ((j : ℕ) → minor ≤ j → j < 64 → has (set_of s) (major * 64 + j) ≡ is_set value j)
        → foreach_bit set_of callback rounds minor major value s
          ≡ scan rounds (major * 64 + minor) s
    unfolding foreach_bit scan
    foreach_bit-eq-scan zero minor major value s e small v cached = refl
    foreach_bit-eq-scan (suc rounds) minor major value s e small v cached =
        ap (λ m. m >>= λ s'. foreach_bit set_of callback rounds (minor + 1) major value s')
          same_turn
        ∙ bind_cong (turn (major * 64 + minor) s) _ _ λ s' runs.
          let r =
            Round-turn (major * 64 + minor) s s' (has (set_of s) (major * 64 + minor)) v refl
              runs in
          foreach_bit-eq-scan rounds (minor + 1) major value s' (omega arith) small r.ok
            (λ j low high. r.rest (major * 64 + j) (omega arith) ∙ cached j (omega arith) high)
          ∙ ap (λ n. scan rounds n s') (omega arith)
      where
        now : has (set_of s) (major * 64 + minor) ≡ is_set value minor
        now = cached minor (omega arith) (omega arith)

        index : u64 (major * 8 * 8 + minor) ≡ major * 64 + minor
        index = omega arith

        same_turn :
            (if bit_and value (mask_of minor) == 0
              then some s
              else callback (u64 (major * 8 * 8 + minor)) s)
            ≡ turn (major * 64 + minor) s
        same_turn =
            rw (now, index, ← test-eq-is_set value minor (omega arith))
              (if_not (bit_and value (mask_of minor) == 0) (some s)
                (callback (major * 64 + minor) s))

    -- Past indices that are not in the set nothing happens.
    scan_none :
        (count index : ℕ) (s : S)
        → ((j : ℕ) → index ≤ j → j < index + count → has (set_of s) j ≡ false)
        → scan count index s ≡ some s
    unfolding scan
    scan_none zero index s h = refl
    scan_none (suc count) index s h =
        rw (h index (omega arith) (omega arith))
          (scan_none count (index + 1) s λ j low high. h j (omega arith) (omega arith))

    scan-add :
        (a b index : ℕ) (s : S)
        → scan (a + b) index s ≡ (scan a index s >>= λ s'. scan b (index + a) s')
    unfolding scan
    scan-add zero b index s = ap₂ (λ n i. scan n i s) (omega arith) (omega arith)
    scan-add (suc a) b index s =
        let split : suc a + b ≡ suc (a + b) = omega arith in
        rw split (
          bind_cong (turn index s) _ _ (λ s' runs.
            scan-add a b (index + 1) s'
            ∙ ap (λ i. scan a (index + 1) s' >>= λ t. scan b i t) (omega arith))
          ∙ bind_assoc (turn index s) _ _)

    -- What a whole pass leaves.
    record Passed (s s' : S) : Type 0 where
      ok : IsValid (set_of s')
      size : (set_of s').size ≡ (set_of s).size

    scan-Passed :
        (count index : ℕ) (s s' : S)
        → IsValid (set_of s)
        → scan count index s ≡ some s'
        → Passed s s'
    unfolding scan
    scan-Passed zero index s s' v e =
        subst (Passed s) (some_eq s s' e) (record { ok = v; size = refl })
    scan-Passed (suc count) index s s' v e =
        let (t, runs, rest) = bind_some (turn index s) _ e in
        let r = Round-turn index s t (has (set_of s) index) v refl runs in
        let p = scan-Passed count (index + 1) t s' r.ok rest in
        record { ok = p.ok; size = p.size ∙ r.size }

    word_turn :
        (major value : ℕ) (s : S)
        → major < (set_of s).size
        → IsValid (set_of s)
        → get_elem? (set_of s).cells major ≡ some (some value)
        → (if value == 0 then some s else foreach_bit set_of callback 64 0 major value s)
          ≡ scan 64 (major * 64) s
    word_turn major value s inside v e = elim (ℕ_discrete value 0) [
      | yes z ↦
          let hit : (value == 0) ≡ true = ground arith in
          rw hit (sym (scan_none 64 (major * 64) s (nothing z)))
      | no nz ↦
          let miss : (value == 0) ≡ false = ground arith in
          rw miss (
            foreach_bit-eq-scan 64 0 major value s refl (omega (arith, v.size_le)) v
              (λ j low high. cached j high)
            ∙ ap (λ n. scan 64 n s) (omega arith))
    ]
      where
        cached : (j : ℕ) → j < 64 → has (set_of s) (major * 64 + j) ≡ is_set value j
        cached j high =
            let word : (major * 64 + j) / 64 ≡ major = omega arith in
            has_of_word (set_of s) (major * 64 + j) {w = value} (rw word e)
            ∙ ap (is_set value) (omega arith)

        nothing :
            value ≡ 0 → (j : ℕ) → major * 64 ≤ j → j < major * 64 + 64 → has (set_of s) j ≡ false
        nothing z j low high =
            ap (has (set_of s)) (omega arith)
            ∙ cached (j - major * 64) (omega arith)
            ∙ ap (λ k. bit k (j - major * 64) == 1) z
            ∙ ap (λ k. k == 1) (bit-zero (j - major * 64))

    foreach_word-eq-scan :
        (left fuel major : ℕ) (s : S)
        → major + left ≡ (set_of s).size
        → left < fuel
        → IsValid (set_of s)
        → foreach_word set_of callback fuel major s ≡ scan (left * 64) (major * 64) s
    unfolding foreach_word load
    foreach_word-eq-scan left zero major s e enough v = absurd (omega arith)
    foreach_word-eq-scan zero (suc fuel) major s e enough v =
        let done : ltb major (set_of s).size ≡ false = ground arith in
        rw (done, foreach_word)
          (sym (scan_none (zero * 64) (major * 64) s λ j low high. absurd (omega arith)))
    foreach_word-eq-scan (suc left) (suc fuel) major s e enough v =
        let (value, word, _) = v.words major (omega (arith, v.size_eq)) in
        let more : ltb major (set_of s).size ≡ true = lt→ltb major (set_of s).size (omega arith) in
        let sixty_four : suc left * 64 ≡ 64 + left * 64 = omega arith in
        rw (more, foreach_word, word, word_turn major value s (omega arith) v word, sixty_four)
          (bind_cong (scan 64 (major * 64) s) _ _ (λ s' runs.
              let p = scan-Passed 64 (major * 64) s s' v runs in
              foreach_word-eq-scan left fuel (major + 1) s' (omega (arith, p.size)) (omega arith)
                p.ok
              ∙ ap (λ n. scan (left * 64) n s') (omega arith))
            ∙ sym (scan-add 64 (left * 64) (major * 64) s))

    -- On a valid set, with a callback that keeps it valid, keeps its size, and does not change
    -- which later indices are in it, `boolset_foreach` is one pass over all indices in ascending
    -- order that calls back for each index in the set and for nothing else; so the loop ends.
    pub foreach-eq-scan :
        (s : S) → IsValid (set_of s) → foreach set_of callback s ≡ scan ((set_of s).size * 64) 0 s
    unfolding foreach
    foreach-eq-scan s v =
        foreach_word-eq-scan (set_of s).size ((set_of s).size + 1) 0 s (omega arith) (omega arith) v

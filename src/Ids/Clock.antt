-- ===== src/Ids/Clock.antt =====
-- New ids: `next` and `observe` of ids.rs.
use mastomini.Prelude.{
  ℕ, ◌+◌, ◌*◌, ◌^◌, ◌≤◌, ◌<◌, ◌≡◌, refl, ◌↔◌, ◌⊎◌, Option, none, some, List, [], ◌∷◌, arith, All,
}
use mastomini.Prelude.Word.{u64_end}
use mastomini.Ids.{IdGen, observe, next}

-- An id that `next` returns is above the last one known, is at least the clock's milliseconds
-- shifted by 16 bits, fits in 64 bits, and is the last one known afterwards.
pub next_fresh :
    (now_ms : ℕ) (gen : IdGen) {id : ℕ}
    → (next now_ms gen).0 ≡ some id
    → (gen.last < id) × (now_ms * 2 ^ 16 ≤ id) × (id < u64_end) × ((next now_ms gen).1.last ≡ id)
unfolding next
next_fresh now_ms gen h = ground arith

-- `next` returns no id exactly when the shifted clock does not fit in 64 bits or the last id
-- known is the greatest one.
pub next_fails :
    (now_ms : ℕ) (gen : IdGen)
    → ((next now_ms gen).0 ≡ none) ↔ ((u64_end ≤ now_ms * 2 ^ 16) ⊎ (u64_end ≤ gen.last + 1))
unfolding next
next_fails now_ms gen = (λ h. grind arith, λ h. grind arith)

pub next_failed-last :
    (now_ms : ℕ) (gen : IdGen) → (next now_ms gen).0 ≡ none → (next now_ms gen).1 ≡ gen
unfolding next
next_failed-last now_ms gen h = ground arith

-- What the service does with its generator: read an id from the store, or ask for a new one.
pub data Call : Type 0 where
  seen : ℕ → Call
  issue : ℕ → Call

abbrev pub issued : Option ℕ → List ℕ → List ℕ
issued none ids = ids
issued (some id) ids = id ∷ ids

-- The new ids, in the order in which they are issued.
pub run : List Call → IdGen → List ℕ
run [] gen = []
run (seen id ∷ calls) gen = run calls (observe id gen)
run (issue now_ms ∷ calls) gen = issued (next now_ms gen).0 (run calls (next now_ms gen).1)

abbrev pub IsIncreasing : List ℕ → Type 0
IsIncreasing [] = Unit
IsIncreasing (id ∷ ids) = All (λ later. id < later) ids × IsIncreasing ids

All-mono :
    (a b : ℕ) (ids : List ℕ) → a ≤ b → All (λ later. b < later) ids → All (λ later. a < later) ids
All-mono a b [] h p = tt
All-mono a b (id ∷ ids) h p = (omega arith, All-mono a b ids h p.1)

issued-cons :
    (gen : IdGen) (now_ms : ℕ) (o : Option ℕ) (ids : List ℕ)
    → (next now_ms gen).0 ≡ o
    → All (λ later. (next now_ms gen).1.last < later) ids × IsIncreasing ids
    → All (λ later. gen.last < later) (issued o ids) × IsIncreasing (issued o ids)
issued-cons gen now_ms none ids e p = rw (next_failed-last now_ms gen e) at p
issued-cons gen now_ms (some id) ids e p =
    let f = next_fresh now_ms gen e in
    let after : All (λ later. id < later) ids = rw (f.3) at (p.0) in
    ((f.0, All-mono gen.last id ids (omega arith) after), (after, p.1))

-- Whatever the clock does, and whatever ids the generator observes between, the ids that it
-- issues increase strictly, and all of them are above the last id that it knew at the start.
pub run-IsIncreasing :
    (calls : List Call) (gen : IdGen)
    → All (λ later. gen.last < later) (run calls gen) × IsIncreasing (run calls gen)
unfolding run observe
run-IsIncreasing [] gen = (tt, tt)
run-IsIncreasing (seen id ∷ calls) gen =
    let p = run-IsIncreasing calls (observe id gen) in
    (All-mono gen.last (observe id gen).last (run calls (observe id gen)) (omega arith) p.0, p.1)
run-IsIncreasing (issue now_ms ∷ calls) gen =
    issued-cons gen now_ms (next now_ms gen).0 (run calls (next now_ms gen).1) refl
      (run-IsIncreasing calls (next now_ms gen).1)

-- ===== src/Store/VersionClock/Threads.antt =====
-- crates/gamestore-engine/src/store.rs: the loop of next_version in many threads, over the one atomic
-- clock. A thread loads the clock, makes its candidate, and exchanges or starts again; between these
-- steps any other thread may step.
use game_store.Prelude.{
  ℕ, ◌+◌, ◌%◌, ◌^◌, ◌≤◌, ◌<◌, max, Bool-cases, inl, inr, List, [], ◌∷◌, ◌≡◌, ◌≢◌, sym, subst, arith,
  All, ◌==◌, if◌then◌else◌,
}

-- Where a thread stands in the loop.
pub data Thread : Type 0 where
  idle : Thread
  loaded : ℕ → Thread
  computed : ℕ → ℕ → Thread

-- The clock, the threads by number, and the versions returned so far, the latest first.
pub record Clock : Type 0 where
  pub clock : ℕ
  pub threads : ℕ → Thread
  pub issued : List ℕ

abbrev pub candidate : ℕ → ℕ → ℕ
candidate prev now = max ((prev + 1) % 2 ^ 64) now

abbrev pub moved : ℕ → Thread → Clock → Clock
moved i t c = record c { threads = λ j. if i == j then t else c.threads j }

-- One step of thread `i`.
pub data Step : Clock → Clock → Type 0 where
  load : (c : Clock) (i : ℕ) → c.threads i ≡ idle → Step c (moved i (loaded c.clock) c)
  compute :
      (c : Clock) (i prev now : ℕ)
      → c.threads i ≡ loaded prev
      → Step c (moved i (computed prev (candidate prev now)) c)
  exchange :
      (c : Clock) (i prev version : ℕ)
      → c.threads i ≡ computed prev version
      → c.clock ≡ prev
      → Step c (record (moved i idle c) { clock = version; issued = version ∷ c.issued })
  retry :
      (c : Clock) (i prev version : ℕ)
      → c.threads i ≡ computed prev version
      → c.clock ≢ prev
      → Step c (moved i idle c)

pub data Reach (c : Clock) : Clock → Type 0 where
  here : Reach c c
  next : {d e : Clock} → Reach c d → Step d e → Reach c e

-- A candidate is above what it was made of.
abbrev IsAhead : Thread → Type 0
IsAhead idle = Unit
IsAhead (loaded prev) = Unit
IsAhead (computed prev version) = prev + 1 < 2 ^ 64 → prev < version

-- Each version is below all those that were returned after it.
abbrev pub IsDescending : List ℕ → Type 0
IsDescending [] = Unit
IsDescending (v ∷ earlier) = All (λ w. w < v) earlier × IsDescending earlier

-- The versions stay below the end of the clock.
abbrev pub HasRoom : List ℕ → Type 0
HasRoom versions = All (λ v. v + 1 < 2 ^ 64) versions

record IsOrdered (c : Clock) : Type 0 where
  ahead : (i : ℕ) → IsAhead (c.threads i)
  room : c.clock + 1 < 2 ^ 64
  reached : All (λ v. v ≤ c.clock) c.issued
  descending : IsDescending c.issued

moved-IsAhead :
    (i : ℕ) (t : Thread) (c : Clock)
    → IsAhead t
    → ((j : ℕ) → IsAhead (c.threads j))
    → (j : ℕ) → IsAhead ((moved i t c).threads j)
moved-IsAhead i t c a all j = elim (Bool-cases (i == j)) [
  | inl same ↦ rw same a
  | inr other ↦ rw other (all j)
]

moved-IsOrdered :
    (i : ℕ) (t : Thread) (c : Clock) → IsAhead t → IsOrdered c → IsOrdered (moved i t c)
moved-IsOrdered i t c a o = record {
  ahead = moved-IsAhead i t c a o.ahead;
  room = o.room;
  reached = o.reached;
  descending = o.descending;
}

stricter : (xs : List ℕ) (n m : ℕ) → n < m → All (λ v. v ≤ n) xs → All (λ v. v < m) xs
stricter [] n m lt h = tt
stricter (x ∷ xs) n m lt h = (omega arith, stricter xs n m lt h.1)

looser : (xs : List ℕ) (m : ℕ) → All (λ v. v < m) xs → All (λ v. v ≤ m) xs
looser [] m h = tt
looser (x ∷ xs) m h = (omega arith, looser xs m h.1)

Step-IsOrdered : {c d : Clock} → Step c d → HasRoom d.issued → IsOrdered c → IsOrdered d
Step-IsOrdered (load c i e) r o = moved-IsOrdered i (loaded c.clock) c tt o
Step-IsOrdered (compute c i prev now e) r o =
    moved-IsOrdered i (computed prev (candidate prev now)) c (λ small. omega arith) o
Step-IsOrdered (exchange c i prev version e same) r o =
    let higher = subst IsAhead e (o.ahead i) (subst (λ n. n + 1 < 2 ^ 64) same o.room) in
    let above =
      stricter c.issued c.clock version (subst (λ n. n < version) (sym same) higher) o.reached in
    record {
      ahead = moved-IsAhead i idle c tt o.ahead;
      room = r.0;
      reached = (omega arith, looser c.issued version above);
      descending = (above, o.descending);
    }
Step-IsOrdered (retry c i prev version e other) r o = moved-IsOrdered i idle c tt o

earlier-HasRoom : {c d : Clock} → Step c d → HasRoom d.issued → HasRoom c.issued
earlier-HasRoom (load c i e) r = r
earlier-HasRoom (compute c i prev now e) r = r
earlier-HasRoom (exchange c i prev version e same) r = r.1
earlier-HasRoom (retry c i prev version e other) r = r

Reach-IsOrdered : {c d : Clock} → Reach c d → HasRoom d.issued → IsOrdered c → IsOrdered d
Reach-IsOrdered here r o = o
Reach-IsOrdered (next reach step) r o =
    Step-IsOrdered step r (Reach-IsOrdered reach (earlier-HasRoom step r) o)

-- A clock that no thread uses yet.
abbrev pub fresh_clock : ℕ → Clock
fresh_clock n = record { clock = n; threads = λ i. idle; issued = [] }

-- While the versions that it returns stay below the end of the clock, the loop of next_version in
-- any number of threads, with any interleaving and any readings of the clock, returns each version
-- above all those returned before.
pub issued-IsDescending :
    {d : Clock} (n : ℕ)
    → n + 1 < 2 ^ 64
    → Reach (fresh_clock n) d
    → HasRoom d.issued
    → IsDescending d.issued
issued-IsDescending n small reach r =
    (Reach-IsOrdered reach r
      (record { ahead = λ i. tt; room = small; reached = tt; descending = tt })).descending

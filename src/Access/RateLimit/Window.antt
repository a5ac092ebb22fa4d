-- ===== src/Access/RateLimit/Window.antt =====
-- The counter implements a window over the log of everything it has allowed.
use ghg_tool.Prelude.{
  ℕ, ◌+◌, ◌≤◌, ◌≡◌, refl, ap, ◌∙◌, Bool, true, false, ◌&&◌, String, List, [], ◌∷◌, ◌++◌, length,
  count_if, ltb, leb, str_eq, eq_iff, arith, if◌then◌else◌, Bool-cases, inl, inr,
}
use ghg_tool.Prelude.Dict.{Dict, string_eq, lookup, update, lookup-update}
use ghg_tool.Access.RateLimit.{
  InMemorySlidingWindow, Bucket, drop_expired, bucket_of, admit, is_allowed, new_counter,
}

-- A call of the counter: whose, and when.
abbrev pub Call : Type 0
Call = String × ℕ

-- The calls one after another, and their answers.
abbrev pub serve : InMemorySlidingWindow → List Call → List Bool
serve c [] = []
serve c ((key, now) ∷ calls) = let r = is_allowed c key now in r.0 ∷ serve r.1 calls

-- The abstract limiter keeps a log of the calls that it allowed, and allows a call if less than
-- `limit` of its key's lie in the window that ends now.
abbrev pub in_window : (window now : ℕ) → String → Call → Bool
in_window window now key call = str_eq call.0 key && leb now (call.1 + window)

abbrev pub recent : (window now : ℕ) → String → List Call → ℕ
recent window now key = count_if (in_window window now key)

abbrev pub spec_allows : (window limit : ℕ) → List Call → Call → Bool
spec_allows window limit log call = ltb (recent window call.1 call.0 log) limit

abbrev log_after : Bool → Call → List Call → List Call
log_after true call log = call ∷ log
log_after false call log = log

abbrev pub spec_serve : (window limit : ℕ) → List Call → List Call → List Bool
spec_serve window limit log [] = []
spec_serve window limit log (call ∷ calls) =
    let allowed = spec_allows window limit log call in
    allowed ∷ spec_serve window limit (log_after allowed call log) calls

-- The clock is monotonic.
abbrev pub InOrder : ℕ → List Call → Type 0
InOrder last [] = Unit
InOrder last (call ∷ calls) = (last ≤ call.1) × InOrder call.1 calls

-- A bucket is in the order of time, between two instants.
abbrev Between : (low high : ℕ) → Bucket → Type 0
Between low high [] = low ≤ high
Between low high (t ∷ ts) = (low ≤ t) × Between t high ts

abbrev live : (window now : ℕ) → ℕ → Bool
live window now t = leb now (t + window)

Between-low : (m n high : ℕ) (b : Bucket) → m ≤ n → Between n high b → Between m high b
Between-low m n high [] h a = omega arith
Between-low m n high (t ∷ ts) h a = (omega (arith, a.0), a.1)

Between-high : (low high now : ℕ) (b : Bucket) → high ≤ now → Between low high b → Between low now b
Between-high low high now [] h a = omega arith
Between-high low high now (t ∷ ts) h a = (a.0, Between-high t high now ts h a.1)

Between-append : (low now : ℕ) (b : Bucket) → Between low now b → Between low now (b ++ (now ∷ []))
Between-append low now [] a = (a, omega arith)
Between-append low now (t ∷ ts) a = (a.0, Between-append t now ts a.1)

module _ (window : ℕ) where
  drop_expired-Between :
      (now low high : ℕ) (b : Bucket)
      → Between low high b
      → Between low high (drop_expired window now b)
  unfolding drop_expired
  drop_expired-Between now low high [] a = a
  drop_expired-Between now low high (t ∷ ts) a = elim (Bool-cases (ltb (t + window) now)) [
    | inl old ↦ rw old (drop_expired-Between now low high ts (Between-low low t high ts a.0 a.1))
    | inr young ↦ rw young a
  ]

  -- In a sorted bucket, what stays is what is live.
  count-live :
      (now low high : ℕ) (b : Bucket)
      → now ≤ low + window
      → Between low high b
      → count_if (live window now) b ≡ length b
  count-live now low high [] h a = refl
  count-live now low high (t ∷ ts) h a =
      ground (arith, count-live now t high ts (omega (arith, h, a.0)) a.1)

  length-drop_expired :
      (now low high : ℕ) (b : Bucket)
      → Between low high b
      → length (drop_expired window now b) ≡ count_if (live window now) b
  unfolding drop_expired
  length-drop_expired now low high [] a = refl
  length-drop_expired now low high (t ∷ ts) a = elim (Bool-cases (ltb (t + window) now)) [
    | inl old ↦ ground (arith, length-drop_expired now t high ts a.1)
    | inr young ↦ ground (arith, count-live now t high ts (ground arith) a.1)
  ]

  -- Dropping what has expired loses nothing that a later call could count.
  count-drop_expired :
      (now later : ℕ) (b : Bucket)
      → now ≤ later
      → count_if (live window later) (drop_expired window now b) ≡ count_if (live window later) b
  unfolding drop_expired
  count-drop_expired now later [] h = refl
  count-drop_expired now later (t ∷ ts) h = ground (arith, count-drop_expired now later ts h)

  count-append :
      (later now : ℕ) (b : Bucket)
      → count_if (live window later) (b ++ (now ∷ []))
        ≡ count_if (live window later) b + (if live window later now then 1 else 0)
  count-append later now [] = omega arith
  count-append later now (t ∷ ts) = omega (arith, count-append later now ts)

bucket_of-update :
    (key i : String) (b : Bucket) (d : Dict String Bucket)
    → bucket_of i (update key (λ old. b) d) ≡ (if str_eq key i then b else bucket_of i d)
unfolding bucket_of
bucket_of-update key i b d = ground (arith, lookup-update key i (λ old. b) d)

-- The buckets are sorted, and hold what the log has of each key in every window from now on.
record Refines (c : InMemorySlidingWindow) (last : ℕ) (log : List Call) : Type 0 where
  sorted : (key : String) → Between 0 last (bucket_of key c.buckets)
  counts :
      (key : String) (later : ℕ)
      → last ≤ later
      → count_if (live c.window later) (bucket_of key c.buckets) ≡ recent c.window later key log

module _ (c : InMemorySlidingWindow) (last : ℕ) (log : List Call) (r : Refines c last log)
    (key : String) (now : ℕ) (h : last ≤ now) where
  abbrev pruned : Bucket
  pruned = drop_expired c.window now (bucket_of key c.buckets)

  length-pruned : length pruned ≡ recent c.window now key log
  length-pruned = length-drop_expired c.window now 0 last _ (r.sorted key) ∙ r.counts key now h

  pruned-Between : Between 0 now pruned
  pruned-Between =
      Between-high 0 last now _ h (drop_expired-Between c.window now 0 last _ (r.sorted key))

  is_allowed-answer : (is_allowed c key now).0 ≡ spec_allows c.window c.limit log (key, now)
  unfolding is_allowed admit
  is_allowed-answer = ground (arith, length-pruned)

  abbrev next_log : List Call
  next_log = log_after (is_allowed c key now).0 (key, now) log

  admitted-Between : Between 0 now (admit c.limit now pruned).1
  unfolding admit
  admitted-Between = elim (Bool-cases (leb c.limit (length pruned))) [
    | inl full ↦ rw full pruned-Between
    | inr free ↦ rw free (Between-append 0 now pruned pruned-Between)
  ]

  next-sorted : (k : String) → Between 0 now (bucket_of k (is_allowed c key now).1.buckets)
  unfolding is_allowed
  next-sorted k =
      rw (bucket_of-update key k (admit c.limit now pruned).1 c.buckets)
        (elim (Bool-cases (str_eq key k)) [
          | inl same ↦ rw same admitted-Between
          | inr other ↦ rw other (Between-high 0 last now _ h (r.sorted k))
        ])

  next-counts :
      (k : String) (later : ℕ)
      → now ≤ later
      → count_if (live c.window later) (bucket_of k (is_allowed c key now).1.buckets)
        ≡ recent c.window later k next_log
  unfolding is_allowed admit
  next-counts k later g = ground (
    arith,
    bucket_of-update key k (admit c.limit now pruned).1 c.buckets,
    count-append c.window later now pruned,
    count-drop_expired c.window now later (bucket_of key c.buckets) g,
    r.counts k later (omega arith),
    eq_iff key k,
  )

  next : Refines (is_allowed c key now).1 now next_log
  unfolding is_allowed
  next = record { sorted = next-sorted; counts = next-counts }

serve-Refines :
    (c : InMemorySlidingWindow) (last : ℕ) (log calls : List Call)
    → Refines c last log
    → InOrder last calls
    → serve c calls ≡ spec_serve c.window c.limit log calls
unfolding is_allowed
serve-Refines c last log [] r h = refl
serve-Refines c last log ((key, now) ∷ calls) r h =
    ap (λ rest. (is_allowed c key now).0 ∷ rest)
      (serve-Refines (is_allowed c key now).1 now _ calls (next c last log r key now h.0) h.1)
    ∙ ap (λ a. a ∷ spec_serve c.window c.limit (log_after a (key, now) log) calls)
        (is_allowed-answer c last log r key now h.0)

new-Refines : (window limit : ℕ) → Refines (new_counter window limit) 0 []
unfolding bucket_of lookup
new-Refines window limit = record { sorted = λ key. omega arith; counts = λ key later h. refl }

-- A new counter answers every sequence of calls whose instants do not decrease as the abstract
-- limiter does: it allows a call exactly if the calls of the same key that were allowed before and
-- lie in the window that ends at the call are less than the limit. What it has dropped from its
-- buckets never matters.
pub serve-spec_serve :
    (window limit : ℕ) (calls : List Call)
    → InOrder 0 calls
    → serve (new_counter window limit) calls ≡ spec_serve window limit [] calls
serve-spec_serve window limit calls h =
    serve-Refines (new_counter window limit) 0 [] calls (new-Refines window limit) h

-- ===== src/RateLimiter/Window.antt =====
-- The promise of the rate limit, against the history of all the queries sent.
use mathlib.Core.List.{append_assoc}
use dht_crawler.Base.{
  ℕ, ◌+◌, ◌≤◌, ◌<◌, pos, ◌≡◌, refl, sym, ap, ◌∙◌, inl, inr, List, [], ◌∷◌, ◌++◌, Bool, true, false,
  ◌&&◌, Bytes, All, All-append, length, ltb, leb, if◌then◌else◌, arith, Bool-cases,
}
use dht_crawler.Libtorrent.{DhtSession}
use dht_crawler.RequestTracker.{to_size_t}
use dht_crawler.RateLimiter.{
  RateLimiter, init, set_rate_limit, second, drop_old, dispatch, rate_exceeded, burst_exceeded,
  send, check_and_send, send_query,
}

-- The instants of a history that lie in the second that begins at `a`, its ends included.
unfoldable pub count_in : ℕ → List ℕ → ℕ
count_in a [] = 0
count_in a (t ∷ ts) = (if leb a t && leb t (a + second) then 1 else 0) + count_in a ts

count_in-append : (a : ℕ) (xs ys : List ℕ) → count_in a (xs ++ ys) ≡ count_in a xs + count_in a ys
unfolding count_in
count_in-append a [] ys = omega arith
count_in-append a (t ∷ xs) ys = omega (arith, count_in-append a xs ys)

count_in-le : (a : ℕ) (xs : List ℕ) → count_in a xs ≤ length xs
unfolding count_in
count_in-le a [] = omega arith
count_in-le a (t ∷ xs) = ground (arith, count_in-le a xs)

-- What has left the window of an instant that lies in the second of `a` lies before `a`.
count_in-expired :
    (a now : ℕ) (xs : List ℕ)
    → now ≤ a + second
    → All (λ t. t + second < now) xs
    → count_in a xs ≡ 0
unfolding count_in
count_in-expired a now [] h p = refl
count_in-expired a now (t ∷ xs) h p = ground (arith, count_in-expired a now xs h p.1)

expired_later :
    (last now : ℕ) (xs : List ℕ)
    → last ≤ now
    → All (λ t. t + second < last) xs
    → All (λ t. t + second < now) xs
expired_later last now [] h p = tt
expired_later last now (t ∷ xs) h p = (omega arith, expired_later last now xs h p.1)

-- drop_old splits off instants that are all more than a second old.
record Dropped (now : ℕ) (ts : List ℕ) : Type 0 where
  old : List ℕ
  split : ts ≡ old ++ drop_old now ts
  expired : All (λ t. t + second < now) old

drop_old-Dropped : (now : ℕ) (ts : List ℕ) → Dropped now ts
unfolding drop_old
drop_old-Dropped now [] = record { old = []; split = refl; expired = tt }
drop_old-Dropped now (t ∷ ts) = elim (Bool-cases (ltb (t + second) now)) [
  | inl late ↦
      let rest = drop_old-Dropped now ts in
      record {
        old = t ∷ rest.old;
        split = rw (late, drop_old) (ap (◌∷◌ t) rest.split);
        expired = (ground arith, rest.expired);
      }
  | inr fresh ↦ record { old = []; split = rw (fresh, drop_old) refl; expired = tt }
]

-- The history after a call.
abbrev pub note : ℕ → List ℕ → Bool → List ℕ
note now history true = history ++ now ∷ []
note now history false = history

count_in_out : (a now : ℕ) → leb now (a + second) ≡ false → count_in a (now ∷ []) ≡ 0
unfolding count_in
count_in_out a now h = ground arith

module _ {dht : DhtSession} where
  -- The state after the instant `last`, with the history of all the queries sent: what the window
  -- has forgotten is more than a second old, and no second of the history has more than n queries.
  pub record Tracks (n last : ℕ) (history : List ℕ) (r : RateLimiter dht) : Type 0 where
    pub limit : r.queries_per_second ≡ pos n
    pub old : List ℕ
    pub split : history ≡ old ++ r.query_timestamps
    pub expired : All (λ t. t + second < last) old
    pub bound : (a : ℕ) → count_in a history ≤ n

  drop_old-Tracks :
      (n last now : ℕ) (history : List ℕ) (r : RateLimiter dht)
      → last ≤ now
      → Tracks n last history r
      → Tracks n now history (record r { query_timestamps = drop_old now r.query_timestamps })
  drop_old-Tracks n last now history r h v =
      let d = drop_old-Dropped now r.query_timestamps in
      record {
        limit = v.limit;
        old = v.old ++ d.old;
        split =
            v.split
            ∙ ap (◌++◌ v.old) d.split
            ∙ sym (append_assoc v.old d.old (drop_old now r.query_timestamps));
        expired = All-append _ v.old d.old (expired_later last now v.old h v.expired) d.expired;
        bound = v.bound;
      }

  sent_bound :
      (n now a : ℕ) (history : List ℕ) (r : RateLimiter dht)
      → Tracks n now history r
      → rate_exceeded r ≡ false
      → count_in a (history ++ now ∷ []) ≤ n
  unfolding rate_exceeded to_size_t
  sent_bound n now a history r v free = elim (Bool-cases (leb now (a + second))) [
    | inl inside ↦
        let room : length r.query_timestamps < n = ground (arith, v.limit) in
        let whole : count_in a history ≡ count_in a v.old + count_in a r.query_timestamps =
          ap (count_in a) v.split ∙ count_in-append a v.old r.query_timestamps in
        omega (
          arith,
          whole,
          count_in-expired a now v.old (ground arith) v.expired,
          count_in-le a r.query_timestamps,
          count_in-append a history (now ∷ []),
          count_in-le a (now ∷ []),
        )
    | inr outside ↦
        omega (arith, count_in-append a history (now ∷ []), count_in_out a now outside, v.bound a)
  ]

  check_and_send-Tracks :
      (n now : ℕ) (history : List ℕ) (target query_type : Bytes) (r : RateLimiter dht)
      → Tracks n now history r
      → Tracks n now
          (note now history (check_and_send now target query_type r).1)
          (check_and_send now target query_type r).0
  unfolding check_and_send send
  check_and_send-Tracks n now history target query_type r v = elim (Bool-cases (rate_exceeded r)) [
    | inl full ↦
        rw (full, check_and_send)
          (record {
            limit = v.limit;
            old = v.old;
            split = v.split;
            expired = v.expired;
            bound = v.bound;
          })
    | inr free ↦ elim (Bool-cases (burst_exceeded now r)) [
      | inl burst ↦
          rw (free, burst, check_and_send)
            (record {
              limit = v.limit;
              old = v.old;
              split = v.split;
              expired = v.expired;
              bound = v.bound;
            })
      | inr ok ↦ elim (Bool-cases (dispatch dht r.session target query_type).1) [
        | inl sent ↦
            rw (free, ok, sent, check_and_send)
              (record {
                limit = v.limit;
                old = v.old;
                split =
                    ap (λ h. h ++ now ∷ []) v.split
                    ∙ append_assoc v.old r.query_timestamps (now ∷ []);
                expired = v.expired;
                bound = λ a. sent_bound n now a history r v free;
              })
        | inr threw ↦
            rw (free, ok, threw, check_and_send)
              (record {
                limit = v.limit;
                old = v.old;
                split = v.split;
                expired = v.expired;
                bound = v.bound;
              })
      ]
    ]
  ]

  -- With a limit of n queries per second and instants that do not fall, no second of the history of
  -- all the queries sent ever has more than n of them.
  pub send_query-Tracks :
      (n last now : ℕ) (history : List ℕ) (target query_type : Bytes) (r : RateLimiter dht)
      → last ≤ now
      → Tracks n last history r
      → Tracks n now
          (note now history (send_query now target query_type r).1)
          (send_query now target query_type r).0
  unfolding send_query
  send_query-Tracks n last now history target query_type r h v =
      check_and_send-Tracks n now history target query_type
        (record r { query_timestamps = drop_old now r.query_timestamps })
        (drop_old-Tracks n last now history r h v)

-- A call of send_query: its instant, its target and its query type.
abbrev pub Query : Type 0
Query = ℕ × Bytes × Bytes

-- The instants of the calls do not fall.
abbrev pub Ordered : ℕ → List Query → Type 0
Ordered last [] = Unit
Ordered last ((now, target, query_type) ∷ qs) = (last ≤ now) × Ordered now qs

module _ {dht : DhtSession} where
  -- The history of the queries sent by a run of calls, after an earlier history.
  unfoldable pub sent_by : List ℕ → RateLimiter dht → List Query → List ℕ
  sent_by history r [] = history
  sent_by history r ((now, target, query_type) ∷ qs) =
      sent_by (note now history (send_query now target query_type r).1)
        (send_query now target query_type r).0 qs

  sent_by-bound :
      (n last : ℕ) (history : List ℕ) (r : RateLimiter dht) (qs : List Query)
      → Ordered last qs
      → Tracks n last history r
      → (a : ℕ) → count_in a (sent_by history r qs) ≤ n
  unfolding sent_by
  sent_by-bound n last history r [] o v a = v.bound a
  sent_by-bound n last history r ((now, target, query_type) ∷ qs) o v a =
      sent_by-bound n now _ _ qs o.1
        (send_query-Tracks n last now history target query_type r o.0 v) a

-- A limiter set to n queries a second sends at most n in every second of any run of calls whose
-- instants do not fall, whatever the session answers.
pub sent_by-init-bound :
    (dht : DhtSession) (n : ℕ) (s : dht.Session) (qs : List Query)
    → Ordered 0 qs
    → (a : ℕ) → count_in a (sent_by {dht = dht} [] (set_rate_limit (pos n) (init s)) qs) ≤ n
unfolding init set_rate_limit count_in
sent_by-init-bound dht n s qs o a =
    sent_by-bound n 0 [] _ qs o
      (record { limit = refl; old = []; split = refl; expired = tt; bound = λ b. omega arith }) a

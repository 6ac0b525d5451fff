-- ===== src/RequestCache/Lifecycle.antt =====
-- A request's way through completion and failures.
use mathlib.Core.Logic.{if_pos}
use mathlib.Core.Path.{subst}
use dht_crawler.Base.{
  ℕ, ◌+◌, ◌<◌, ◌≡◌, refl, ◌∙◌, List, [], ◌∷◌, none, some, true, false, Bytes, bytes_key,
  Bytes-discrete, StdMap, lookup, lookup-insert, lookup-erase, length, ltb, arith,
}
use dht_crawler.RequestCache.{
  pending, completed, failed, not_found, RequestInfo, RequestCache, milliseconds, add_request,
  get_request_status, mark_request_complete, note_failure, mark_request_failed, get_request_info,
}

-- A completed request is no longer active; get_request_info finds it with its result, but
-- get_request_status does not look among the completed ones: it answers not_found.
pub status_complete :
    (now : ℕ) (id result : Bytes) (r : RequestInfo) (c : RequestCache)
    → lookup id c.active_requests ≡ some r
    → lookup id c.expired_requests ≡ none
    → let c' = (mark_request_complete now id result c).0 in
      ((mark_request_complete now id result c).1 ≡ true)
      × (get_request_info id c'
          ≡ some (record r { status = completed; result_data = result; completed_at = now }))
      × (get_request_status id c' ≡ not_found)
unfolding mark_request_complete get_request_info get_request_status
status_complete now id result r c e x = ground (
  arith,
  lookup-erase id id c.active_requests,
  lookup-insert id id (record r { status = completed; result_data = result; completed_at = now })
      c.completed_requests,
)

-- A failure: the two readings of the clock, and the message.
abbrev pub Failure : Type 0
Failure = ℕ × ℕ × Bytes

unfoldable pub fail_all : Bytes → List Failure → RequestCache → RequestCache
fail_all id [] c = c
fail_all id ((now, later, message) ∷ fs) c =
    fail_all id fs (mark_request_failed now later id message c).0

-- An active request that has failed `n` times.
pub record IsTried (id : Bytes) (n limit : ℕ) (c : RequestCache) : Type 0 where
  pub request : RequestInfo
  pub active : lookup id c.active_requests ≡ some request
  pub waiting : request.status ≡ pending
  pub tries : request.retry_count ≡ n
  pub max : request.max_retries ≡ limit

fail_again :
    (now later n limit : ℕ) (id message : Bytes) (c : RequestCache)
    → IsTried id n limit c
    → n + 1 < limit
    → IsTried id (n + 1) limit (mark_request_failed now later id message c).0
unfolding mark_request_failed
fail_again now later n limit id message c v h =
    let r' = note_failure now message v.request in
    let again : RequestInfo = record r' {
      status = pending;
      expires_at = later + milliseconds c.config.request_timeout;
    } in
    record {
      request = again;
      active =
          ground (arith, v.active, v.tries, v.max, lookup-insert id id again c.active_requests);
      waiting = refl;
      tries = omega (arith, v.tries);
      max = v.max;
    }

fail_last :
    (now later n : ℕ) (id message : Bytes) (c : RequestCache)
    → IsTried id n (n + 1) c
    → let c' = (mark_request_failed now later id message c).0 in
      (lookup id c'.active_requests ≡ none)
      × ((r : RequestInfo) × (lookup id c'.failed_requests ≡ some r)
          × (r.status ≡ failed)
          × (r.retry_count ≡ n + 1))
unfolding mark_request_failed
fail_last now later n id message c v =
    let r' : RequestInfo = note_failure now message v.request in
    let stop : ltb r'.retry_count r'.max_retries ≡ false = ground (arith, v.tries, v.max) in
    (
      ground (arith, v.active, stop, lookup-erase id id c.active_requests),
      (
        r',
        ground (arith, v.active, stop, lookup-insert id id r' c.failed_requests),
        refl,
        omega (arith, v.tries),
      ),
    )

fail_all-IsTried :
    (n m limit : ℕ) (id : Bytes) (fs : List Failure) (c : RequestCache)
    → n + length fs ≡ m
    → m < limit
    → IsTried id n limit c
    → IsTried id m limit (fail_all id fs c)
unfolding fail_all
fail_all-IsTried n m limit id [] c e h v = subst (λ (k : ℕ). IsTried id k limit c) (omega arith) v
fail_all-IsTried n m limit id ((now, later, message) ∷ fs) c e h v =
    fail_all-IsTried (n + 1) m limit id fs _ (omega arith) h
      (fail_again now later n limit id message c v (omega arith))

add-IsTried :
    (now : ℕ) (id type target : Bytes) (ps : StdMap Bytes Bytes) (c : RequestCache)
    → IsTried id 0 c.config.max_retries (add_request now id type target ps c).0
unfolding add_request
add-IsTried now id type target ps c =
    let added = (add_request now id type target ps c).0 in
    let found = lookup-insert id id _ c.active_requests in
    record {
      request = record {
        id = id;
        type = type;
        target_id = target;
        parameters = ps;
        status = pending;
        result_data = [];
        error_message = [];
        created_at = now;
        expires_at = now + milliseconds c.config.request_timeout;
        completed_at = 0;
        failed_at = 0;
        retry_count = 0;
        max_retries = c.config.max_retries;
      };
      active = found ∙ if_pos (Bytes-discrete id id) refl _ _;
      waiting = refl;
      tries = refl;
      max = refl;
    }

-- A new request survives max_retries - 1 failures, however they come: it stays active and pending
-- with its failures counted. The next failure ends it: it leaves the active requests and stands
-- among the failed ones with max_retries failures.
pub add-fail_all :
    (now at later : ℕ) (id type target message : Bytes) (ps : StdMap Bytes Bytes)
    (fs : List Failure) (c : RequestCache)
    → c.config.max_retries ≡ length fs + 1
    → let tried = fail_all id fs (add_request now id type target ps c).0 in
      let ended = (mark_request_failed at later id message tried).0 in
      IsTried id (length fs) c.config.max_retries tried
      × (lookup id ended.active_requests ≡ none)
      × ((r : RequestInfo) × (lookup id ended.failed_requests ≡ some r)
          × (r.status ≡ failed)
          × (r.retry_count ≡ c.config.max_retries))
add-fail_all now at later id type target message ps fs c e =
    let start = (add_request now id type target ps c).0 in
    let tried =
      fail_all-IsTried 0 (length fs) c.config.max_retries id fs start (omega arith) (omega arith)
        (add-IsTried now id type target ps c) in
    let (gone, (r, kept, over, count)) =
      fail_last at later (length fs) id message (fail_all id fs start)
        (subst (λ (k : ℕ). IsTried id (length fs) k (fail_all id fs start)) e tried) in
    (tried, gone, (r, kept, over, omega (arith, count)))

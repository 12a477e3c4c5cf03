-- ===== src/Connection/Store/Delegation.antt =====
-- `RecordingStore` of scanner/connection.rs beside the cache that it wraps.
use ru_ssl.Prelude.{◌≡◌, refl, ◌∙◌, ap, Bool, true, false, ◌||◌, List, [], ◌∷◌, any, arith}
use ru_ssl.Connection.Store.{
  Cache, set_kx_hint, kx_hint, set_tls12_session, tls12_session, remove_tls12_session,
  insert_tls13_ticket, take_tls13_ticket, RecordingStore, StoreCall, Reply, call, calls, nothing,
  hint, session, ticket, set_hint, get_hint, set_session, get_session, remove_session,
  insert_ticket, take_ticket,
}

module _ (cache : Cache) where
  open cache use {
    State, cache_set_kx_hint, cache_kx_hint, cache_set_tls12_session, cache_tls12_session,
    cache_remove_tls12_session, cache_insert_tls13_ticket, cache_take_tls13_ticket,
  }

  -- The same calls on the cache with no store around it.
  abbrev pub cache_call : State → StoreCall cache → State × Reply cache
  cache_call s (set_hint n g) = (cache_set_kx_hint s n g, nothing)
  cache_call s (get_hint n) = (s, hint (cache_kx_hint s n))
  cache_call s (set_session n v) = (cache_set_tls12_session s n v, nothing)
  cache_call s (get_session n) = (s, session (cache_tls12_session s n))
  cache_call s (remove_session n) = (cache_remove_tls12_session s n, nothing)
  cache_call s (insert_ticket n v) = (cache_insert_tls13_ticket s n v, nothing)
  cache_call s (take_ticket n) = let (s', t) = cache_take_tls13_ticket s n in (s', ticket t)

  abbrev pub cache_calls : State → List (StoreCall cache) → State × List (Reply cache)
  cache_calls s [] = (s, [])
  cache_calls s (c ∷ cs) =
      let (s', reply) = cache_call s c in
      let (last, replies) = cache_calls s' cs in (last, reply ∷ replies)

  abbrev pub offers_session : StoreCall cache → Bool
  offers_session (set_session _ _) = true
  offers_session _ = false

  abbrev pub offers_ticket : StoreCall cache → Bool
  offers_ticket (insert_ticket _ _) = true
  offers_ticket _ = false

  -- The store that the calls should leave.
  abbrev pub Delegates : RecordingStore cache → List (StoreCall cache) → Type 0
  Delegates s cs =
      ((calls cache s cs).0.inner ≡ (cache_calls s.inner cs).0)
      × ((calls cache s cs).1 ≡ (cache_calls s.inner cs).1)
      × ((calls cache s cs).0.tls12 ≡ (s.tls12 || any offers_session cs))
      × ((calls cache s cs).0.tls13 ≡ (s.tls13 || any offers_ticket cs))

  call-inner :
      (s : RecordingStore cache) (c : StoreCall cache)
      → ((call cache s c).0.inner ≡ (cache_call s.inner c).0)
        × ((call cache s c).1 ≡ (cache_call s.inner c).1)
        × ((call cache s c).0.tls12 ≡ (s.tls12 || offers_session c))
        × ((call cache s c).0.tls13 ≡ (s.tls13 || offers_ticket c))
  unfolding call set_kx_hint kx_hint set_tls12_session tls12_session remove_tls12_session
      insert_tls13_ticket take_tls13_ticket
  call-inner s (set_hint n g) = (refl, refl, ground arith, ground arith)
  call-inner s (get_hint n) = (refl, refl, ground arith, ground arith)
  call-inner s (set_session n v) = (refl, refl, ground arith, ground arith)
  call-inner s (get_session n) = (refl, refl, ground arith, ground arith)
  call-inner s (remove_session n) = (refl, refl, ground arith, ground arith)
  call-inner s (insert_ticket n v) = (refl, refl, ground arith, ground arith)
  call-inner s (take_ticket n) = (refl, refl, ground arith, ground arith)

  or_assoc : (a b c : Bool) → ((a || b) || c) ≡ (a || (b || c))
  or_assoc a b c = ground arith

  -- Under any sequence of calls the recording store answers each as the cache alone would and
  -- holds the same cache state, and each of its flags is set exactly if it was set before or a
  -- session, or a ticket, was stored.
  pub calls-Delegates : (s : RecordingStore cache) (cs : List (StoreCall cache)) → Delegates s cs
  unfolding calls
  calls-Delegates s [] = (refl, refl, ground arith, ground arith)
  calls-Delegates s (c ∷ cs) =
      let (inner, reply, session', ticket') = call-inner s c in
      let (inner', replies, sessions, tickets) = calls-Delegates (call cache s c).0 cs in
      (
        inner' ∙ ap (λ (i : State). (cache_calls i cs).0) inner,
        ap (λ (r : Reply cache). r ∷ (calls cache (call cache s c).0 cs).1) reply
            ∙ ap (◌∷◌ (cache_call s.inner c).1)
                (replies ∙ ap (λ (i : State). (cache_calls i cs).1) inner),
        sessions ∙ rw session' (or_assoc s.tls12 (offers_session c) (any offers_session cs)),
        tickets ∙ rw ticket' (or_assoc s.tls13 (offers_ticket c) (any offers_ticket cs)),
      )

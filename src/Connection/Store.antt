-- ===== src/Connection/Store.antt =====
-- `RecordingStore`: a session store that delegates to a cache of rustls and notes whether the server
-- offered material for resumption.
pub mod Delegation
use ru_ssl.Prelude.{ℕ, Bool, true, false, List, [], ◌∷◌, Option}

-- `ClientSessionMemoryCache` of rustls: its state, the types of its arguments, and its operations.
pub record Cache : Type 1 where
  pub State : Type 0
  pub Name : Type 0
  pub Group : Type 0
  pub Tls12 : Type 0
  pub Tls13 : Type 0
  pub cache_new : ℕ → State
  pub cache_set_kx_hint : State → Name → Group → State
  pub cache_kx_hint : State → Name → Option Group
  pub cache_set_tls12_session : State → Name → Tls12 → State
  pub cache_tls12_session : State → Name → Option Tls12
  pub cache_remove_tls12_session : State → Name → State
  pub cache_insert_tls13_ticket : State → Name → Tls13 → State
  pub cache_take_tls13_ticket : State → Name → State × Option Tls13

module _ (cache : Cache) where
  open cache use {
    State, Name, Group, Tls12, Tls13, cache_new, cache_set_kx_hint, cache_kx_hint,
    cache_set_tls12_session, cache_tls12_session, cache_remove_tls12_session,
    cache_insert_tls13_ticket, cache_take_tls13_ticket,
  }

  -- The two atomic flags stand beside the cache.
  pub record RecordingStore : Type 0 where
    pub inner : State
    pub tls12 : Bool
    pub tls13 : Bool

  abbrev pub new_store : RecordingStore
  new_store = record { inner = cache_new 8; tls12 = false; tls13 = false }

  unfoldable pub set_kx_hint : RecordingStore → Name → Group → RecordingStore
  set_kx_hint s n g = record s { inner = cache_set_kx_hint s.inner n g }

  unfoldable pub kx_hint : RecordingStore → Name → Option Group
  kx_hint s n = cache_kx_hint s.inner n

  unfoldable pub set_tls12_session : RecordingStore → Name → Tls12 → RecordingStore
  set_tls12_session s n v = record s { tls12 = true; inner = cache_set_tls12_session s.inner n v }

  unfoldable pub tls12_session : RecordingStore → Name → Option Tls12
  tls12_session s n = cache_tls12_session s.inner n

  unfoldable pub remove_tls12_session : RecordingStore → Name → RecordingStore
  remove_tls12_session s n = record s { inner = cache_remove_tls12_session s.inner n }

  unfoldable pub insert_tls13_ticket : RecordingStore → Name → Tls13 → RecordingStore
  insert_tls13_ticket s n v = record s {
    tls13 = true;
    inner = cache_insert_tls13_ticket s.inner n v;
  }

  unfoldable pub take_tls13_ticket : RecordingStore → Name → RecordingStore × Option Tls13
  take_tls13_ticket s n =
      let (inner', ticket) = cache_take_tls13_ticket s.inner n in
      (record s { inner = inner' }, ticket)

  -- The calls of rustls on a store, and what they return.
  pub data StoreCall : Type 0 where
    set_hint : Name → Group → StoreCall
    get_hint : Name → StoreCall
    set_session : Name → Tls12 → StoreCall
    get_session : Name → StoreCall
    remove_session : Name → StoreCall
    insert_ticket : Name → Tls13 → StoreCall
    take_ticket : Name → StoreCall

  pub data Reply : Type 0 where
    nothing : Reply
    hint : Option Group → Reply
    session : Option Tls12 → Reply
    ticket : Option Tls13 → Reply

  unfoldable pub call : RecordingStore → StoreCall → RecordingStore × Reply
  unfolding set_kx_hint kx_hint set_tls12_session tls12_session remove_tls12_session
      insert_tls13_ticket take_tls13_ticket
  call s (set_hint n g) = (set_kx_hint s n g, nothing)
  call s (get_hint n) = (s, hint (kx_hint s n))
  call s (set_session n v) = (set_tls12_session s n v, nothing)
  call s (get_session n) = (s, session (tls12_session s n))
  call s (remove_session n) = (remove_tls12_session s n, nothing)
  call s (insert_ticket n v) = (insert_tls13_ticket s n v, nothing)
  call s (take_ticket n) = let (s', t) = take_tls13_ticket s n in (s', ticket t)

  -- The store after the calls, with their replies.
  unfoldable pub calls : RecordingStore → List StoreCall → RecordingStore × List Reply
  unfolding call
  calls s [] = (s, [])
  calls s (c ∷ cs) =
      let (s', reply) = call s c in let (last, replies) = calls s' cs in (last, reply ∷ replies)

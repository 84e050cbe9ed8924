-- ===== src/AsioClient/Rotation.antt =====
-- asio/internal/AsioClient.cpp, class AsioClient: which address is tried after connections that fail.
use asio.Prelude.{
  ℕ, zero, suc, ◌+◌, ◌-◌, ◌%◌, ◌^◌, ◌≤◌, ◌<◌, ◌≡◌, refl, ap, ◌∙◌, true, false, List, none, some,
  Bytes, Exec, ok, ◌>>=◌, length, leb, ltb, if◌then◌else◌, arith,
}
use asio.Prelude.Int.{pos, ltb_ℤ}
use asio.Platform.{Platform}
use asio.AsioClient.{Client, find_colon, address_at}
use asio.AsioClient.Connection.{Outside, dial, connect, do_connect}

module _ (env : Platform) {R D F : Type 0} (outside : Outside env.Message) where
  -- Some connections that fail, one after the other.
  unfoldable pub fail_times : ℕ → ℕ → Client env.Message R D F → Exec (Client env.Message R D F)
  fail_times zero now c = ok c
  fail_times (suc k) now c = fail_times k now c >>= do_connect env outside true now

-- An index that runs over the end starts again.
abbrev pub wrapped : ℕ → ℕ → ℕ
wrapped n i = if ltb i n then i else i - n

wrapped-suc :
    (n i k : ℕ) → i < n → suc k ≤ n → wrapped n (wrapped n (i + k) + 1) ≡ wrapped n (i + suc k)
wrapped-suc n i k h m = ground (arith, h, m)

module _ {M : Type 0} (outside : Outside M) where
  -- An address with a colon, and a host and a port around it that the resolver finds.
  pub record Reaches (address host port : Bytes) : Type 0 where
    pub splits : find_colon address ≡ some (host, port)
    pub found : outside.resolves host port ≡ true

  -- Every index of a list has such an address.
  pub record AllReach (addresses : List Bytes) (hosts ports : ℕ → Bytes) : Type 0 where
    pub at :
        (i : ℕ)
        → i < length addresses
        → (a : Bytes) × (address_at addresses i ≡ some a) × Reaches a (hosts i) (ports i)

module _ (env : Platform) {R D F : Type 0} (outside : Outside env.Message) where
  dial_lem :
      (host port : Bytes) (c : Client env.Message R D F)
      → outside.resolves host port ≡ true
      → dial env outside (host, port) c ≡ ok (record c { connecting = some (host, port) })
  dial_lem host port c r = rw r refl

  connect_lem :
      (c : Client env.Message R D F) (hosts ports : ℕ → Bytes) (i : ℕ)
      → AllReach outside c.address_list hosts ports
      → i < length c.address_list
      → (if leb (length c.address_list) c.address_index then 0 else c.address_index) ≡ i
      → connect env outside c
        ≡ ok (record c { address_index = i; connecting = some (hosts i, ports i) })
  unfolding connect
  connect_lem c hosts ports i all small e =
      let (a, at, reach) = all.at i small in
      rw (e, at, reach.splits)
        (dial_lem (hosts i) (ports i) (record c { address_index = i }) reach.found)

  -- A client that lost its connection and dials an address.
  abbrev dialling :
      (ℕ → Bytes) → (ℕ → Bytes) → ℕ → Client env.Message R D F → Client env.Message R D F
  dialling hosts ports j c = record c {
    is_online = false;
    is_open = false;
    connecting = some (hosts j, ports j);
    address_index = j;
  }

  one_fail :
      (now : ℕ) (c : Client env.Message R D F) (hosts ports : ℕ → Bytes)
      → ltb_ℤ (pos 0) c.reconnect_seconds ≡ true
      → AllReach outside c.address_list hosts ports
      → length c.address_list < 2 ^ 64
      → c.address_index < length c.address_list
      → let j = wrapped (length c.address_list) (c.address_index + 1) in
        do_connect env outside true now c ≡ ok (dialling hosts ports j c)
  unfolding do_connect
  one_fail now c hosts ports again all size small =
      let n = length c.address_list in
      let j = wrapped n (c.address_index + 1) in
      let next = (c.address_index + 1) % 2 ^ 64 in
      let below : j < n = ground (arith, small) in
      let turned : (if leb n next then 0 else next) ≡ j = ground (arith, small, size) in
      rw again (
        connect_lem
          (record c { is_online = false; is_open = false; connecting = none; address_index = next })
          hosts ports j all below turned)

  -- A client after some failures: the same addresses, at an index.
  unfoldable IsAt : Client env.Message R D F → ℕ → Client env.Message R D F → Type 0
  IsAt c i c' =
      (c'.address_list ≡ c.address_list)
      × (c'.reconnect_seconds ≡ c.reconnect_seconds)
      × (c'.address_index ≡ i)

  fails-IsAt :
      (k now : ℕ) (c : Client env.Message R D F) (hosts ports : ℕ → Bytes)
      → ltb_ℤ (pos 0) c.reconnect_seconds ≡ true
      → AllReach outside c.address_list hosts ports
      → length c.address_list < 2 ^ 64
      → c.address_index < length c.address_list
      → suc k ≤ length c.address_list
      → (c' : Client env.Message R D F) × (fail_times env outside k now c ≡ ok c')
        × IsAt c (wrapped (length c.address_list) (c.address_index + k)) c'
  unfolding fail_times IsAt
  fails-IsAt zero now c hosts ports again all size small most =
      (c, refl, (refl, refl, ground (arith, small)))
  fails-IsAt (suc k) now c hosts ports again all size small most =
      let n = length c.address_list in
      let (c1, run, (l, r, at)) =
        fails-IsAt k now c hosts ports again all size small (omega arith) in
      let here : wrapped n (c.address_index + k) < n = ground (arith, small, most) in
      let step =
        one_fail now c1 hosts ports (ap (λ s. ltb_ℤ (pos 0) s) r ∙ again) (rw l all) (rw l size)
          (rw (l, at) here) in
      (
        dialling hosts ports (wrapped (length c1.address_list) (c1.address_index + 1)) c1,
        rw run step,
        (l, r, rw (l, at) (wrapped-suc n c.address_index k small (omega arith))),
      )

  -- With addresses that all have a host and a port that the resolver finds, the connections that fail
  -- go round the addresses: in a client that reconnects, after at least one failure and at most as many
  -- as there are addresses, the client dials the address that many places behind its first one, the
  -- first address following the last. Its index is one of the list to begin with, and the number of
  -- addresses is below 2 ^ 64.
  pub reconnect_rotates :
      (k now : ℕ) (c : Client env.Message R D F) (hosts ports : ℕ → Bytes)
      → ltb_ℤ (pos 0) c.reconnect_seconds ≡ true
      → AllReach outside c.address_list hosts ports
      → length c.address_list < 2 ^ 64
      → c.address_index < length c.address_list
      → suc k ≤ length c.address_list
      → let i = wrapped (length c.address_list) (c.address_index + suc k) in
        (c' : Client env.Message R D F) × (fail_times env outside (suc k) now c ≡ ok c')
        × (c'.address_index ≡ i)
        × (c'.connecting ≡ some (hosts i, ports i))
  unfolding fail_times IsAt
  reconnect_rotates k now c hosts ports again all size small most =
      let n = length c.address_list in
      let (c1, run, (l, r, at)) = fails-IsAt k now c hosts ports again all size small most in
      let here : wrapped n (c.address_index + k) < n = ground (arith, small, most) in
      let step =
        one_fail now c1 hosts ports (ap (λ s. ltb_ℤ (pos 0) s) r ∙ again) (rw l all) (rw l size)
          (rw (l, at) here) in
      let turned : wrapped (length c1.address_list) (c1.address_index + 1)
          ≡ wrapped n (c.address_index + suc k) =
        rw (l, at) (wrapped-suc n c.address_index k small most) in
      (
        dialling hosts ports (wrapped (length c1.address_list) (c1.address_index + 1)) c1,
        rw run step,
        turned,
        ap (λ i. some (hosts i, ports i)) turned,
      )

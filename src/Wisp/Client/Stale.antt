-- ===== src/Wisp/Client/Stale.antt =====
-- wispc_publish of client_control.c after the server has given the slot away.
use pi_ghost.Base.{ℕ, zero, suc, ◌+◌, ◌≤◌, ◌<◌, ◌≡◌, false, arith, ◌==◌}
use Prim.Native.Nat.{◌^◌, ◌%◌}
use pi_ghost.Wisp.Types.{Timespec}
use pi_ghost.Wisp.Ring.{Ring, evict_client}
use pi_ghost.Wisp.Client.{Client, publish}

abbrev pub evictions : ℕ → Ring → Ring
evictions zero ring = ring
evictions (suc n) ring = evict_client (evictions n ring)

evictions-generation :
    (n : ℕ) (ring : Ring)
    → ring.generation < 2 ^ 32
    → (evictions n ring).generation ≡ (ring.generation + n) % 2 ^ 32
evictions-generation zero ring h = omega (arith, h)
evictions-generation (suc n) ring h = omega (arith, evictions-generation n ring h)

differ : (a n : ℕ) → a < 2 ^ 32 → 1 ≤ n → n < 2 ^ 32 → ((a + n) % 2 ^ 32 == a) ≡ false
differ a n h l u = ground arith

-- A client that was granted the generation of the ring and publishes after the server has evicted
-- clients, once or more often but not 2 ^ 32 times, leaves the ring as it is, signals nothing, and is
-- no longer active.
pub publish-stale :
    (n : ℕ) (now : Timespec) (idx frame_id : ℕ) (ctx : Client) (ring : Ring)
    → ring.generation < 2 ^ 32
    → ctx.granted_generation ≡ ring.generation
    → 1 ≤ n
    → n < 2 ^ 32
    → publish now idx frame_id ctx (evictions n ring)
      ≡ (record ctx { active = false }, evictions n ring)
publish-stale n now idx frame_id ctx ring h g l u = ground (arith, apart)
  where
    apart : ((evictions n ring).generation == ctx.granted_generation) ≡ false
    apart = ground (arith, differ ring.generation n h l u, evictions-generation n ring h, g)

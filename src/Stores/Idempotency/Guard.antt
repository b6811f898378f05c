-- ===== src/Stores/Idempotency/Guard.antt =====
-- `IdempotencyGuard` of crates/sdkwork-web-core/src/stores.rs: the guard that releases a key when
-- it is dropped. The task that the drop spawns is the step of the release; that it runs is tokio's.
use sdkwork_web_framework.Base.{ℕ, Bool, true, false, not, if◌then◌else◌, ok, ◌≡◌, refl}
use sdkwork_web_framework.Base.Text.{Str}
use sdkwork_web_framework.Stores.Idempotency.{Entries, leader, begin, release}
use sdkwork_web_framework.Stores.Idempotency.Protocol.{release-begin}

pub record IdempotencyGuard : Type 0 where
  pub key : Str
  pub fingerprint : Str
  pub released : Bool

unfoldable pub new_guard : Str → Str → IdempotencyGuard
new_guard key fingerprint = record { key = key; fingerprint = fingerprint; released = false }

unfoldable pub mark_completed : IdempotencyGuard → IdempotencyGuard
mark_completed guard = record guard { released = true }

unfoldable pub drop_guard : IdempotencyGuard → Entries → Entries
drop_guard guard entries =
    if not guard.released then release guard.key guard.fingerprint entries else entries

-- A leader whose guard is dropped before it is marked completed lets the next request under the
-- key become the leader; once it is marked, the drop leaves the store as it is.
pub drop_guard-begin :
    (key fingerprint : Str) (ttl now created : ℕ) (entries s : Entries)
    → begin key fingerprint ttl now created entries ≡ (s, ok leader)
    → (fingerprint' : Str) (ttl' now' created' : ℕ)
    → ((begin key fingerprint' ttl' now' created' (drop_guard (new_guard key fingerprint) s)).1
        ≡ ok leader)
      × (drop_guard (mark_completed (new_guard key fingerprint)) s ≡ s)
unfolding drop_guard mark_completed new_guard
drop_guard-begin key fingerprint ttl now created entries s led fingerprint' ttl' now' created' = (
  release-begin key fingerprint ttl now created entries s led fingerprint' ttl' now' created',
  refl,
)

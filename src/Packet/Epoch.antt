-- ===== src/Packet/Epoch.antt =====
-- `EncryptionEpoch` of ntied-transport/src/packet.rs: the counter of key rotations.
use ntied.Common.{
  ℕ, zero, suc, ◌+◌, ◌-◌, ◌≤◌, ◌≢◌, Option, none, some, Result, ok, err, ltb, leb, if◌then◌else◌,
  arith,
}
use ntied.ByteIo.{Error, epoch_exceeds_maximum}

pub record EncryptionEpoch : Type 0 where
  pub value : ℕ

-- `RESERVED`.
abbrev pub reserved : ℕ
reserved = 128

-- `none` is the panic of the assertion.
unfoldable pub new : ℕ → Option EncryptionEpoch
new epoch = if leb epoch (255 - reserved) then some (record { value = epoch }) else none

unfoldable pub from_u8 : ℕ → Result Error EncryptionEpoch
from_u8 epoch =
    if ltb (255 - reserved) epoch then err epoch_exceeds_maximum else ok (record { value = epoch })

unfoldable pub as_u8 : EncryptionEpoch → ℕ
as_u8 e = e.value

-- Past the last epoch comes 1, since 0 stands for no key.
unfoldable pub next : EncryptionEpoch → EncryptionEpoch
next e =
    let epoch = e.value + 1 in
    if ltb (255 - reserved) epoch then record { value = 1 } else record { value = epoch }

abbrev pub IsEpoch : EncryptionEpoch → Type 0
IsEpoch e = e.value ≤ 127

-- The epochs of an established connection.
abbrev pub IsLive : EncryptionEpoch → Type 0
IsLive e = (1 ≤ e.value) × (e.value ≤ 127)

pub next-IsLive : (e : EncryptionEpoch) → IsEpoch e → IsLive (next e)
unfolding next
next-IsLive e h = ground arith

pub next-ne : (e : EncryptionEpoch) → IsLive e → next e ≢ e
unfolding next
next-ne e h = ground arith

-- The state after `n` rotations.
unfoldable pub rotations : ℕ → EncryptionEpoch → EncryptionEpoch
rotations zero e = e
rotations (suc n) e = next (rotations n e)

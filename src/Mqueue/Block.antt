-- ===== src/Mqueue/Block.antt =====
-- petra/src/ipc/mqueue.rs: the wait of `MqDesc::send` and `MqDesc::recv`.
use petra_os.Common.{◌≡◌, ◌⊎◌, Bool, true, Option, some}
use petra_os.Common.Errno.{eintr, eagain, etimedout, Result, err}
use petra_os.Mqueue.{World}

-- Where the reply of a blocking call came from.
abbrev pub Reply {ℓ} :
    {R : Type ℓ} → Bool → (World → Option (Result R) × World) → Result R → World → Type ℓ
Reply nonblocking once r w' =
    ((t : World) × ((once t).0 ≡ some r))
    ⊎ ((nonblocking ≡ true) × (r ≡ err eagain))
    ⊎ ((w'.interrupted ≡ true) × (r ≡ err eintr))
    ⊎ ((w'.expired ≡ true) × (r ≡ err etimedout))

-- ===== src/Common/Errno.antt =====
-- petra/src/uapi/errno.rs: the error numbers that the modelled code returns, and its `Result`.

pub data Errno : Type 0 where
  eperm enoent esrch eintr e2big ebadf eagain eacces efault eexist ebusy einval emfile efbig enospc
        erange epipe eidrm enomem enomsg emsgsize enotty eio etimedout :
      Errno

pub data Result {ℓ} (A : Type ℓ) : Type ℓ where
  err : Errno → Result A
  ok : A → Result A

-- The `?` of the source.
infixl 5 ◌>>=◌
abbrev pub ◌>>=◌ {ℓ κ} : {X : Type ℓ} {Y : Type κ} → Result X → (X → Result Y) → Result Y
err e >>= next = err e
ok x >>= next = next x

-- What holds on both branches holds of the case split.
pub result_cases {ℓ κ ι} :
    {X : Type ℓ} {Y : Type κ} (P : Y → Type ι) (r : Result X) {f : Errno → Y} {g : X → Y}
    → ((e : Errno) → P (f e))
    → ((x : X) → P (g x))
    → P (elim r as (λ _. Y) [ err e ↦ f e | ok x ↦ g x ])
result_cases P (err e) hf hg = hf e
result_cases P (ok x) hf hg = hg x

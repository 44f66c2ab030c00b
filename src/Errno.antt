-- ===== src/Errno.antt =====
-- include/nuvix/errno.h: a call that returns `-E…` on failure returns `err`, and `ok` with its
-- result otherwise.

use nuvix.Prelude.{◌≡◌, ◌⊎◌, refl, inl, inr}

pub data Errno : Type 0 where
  eperm enoent esrch eintr eio enomem eacces efault ebusy eexist einval emfile enospc epipe eagain
        ebadf eoverflow eopnotsupp erestartsys etimedout euclean efbig enotsupp :
      Errno

pub data Result {ℓ} (A : Type ℓ) : Type ℓ where
  ok : A → Result A
  err : Errno → Result A

pub Result-cases {ℓ} :
    {A : Type ℓ} (r : Result A) → ((e : Errno) × (r ≡ err e)) ⊎ ((a : A) × (r ≡ ok a))
Result-cases (ok a) = inr (a, refl)
Result-cases (err e) = inl (e, refl)

pub ok_injective {ℓ} : {A : Type ℓ} (a b : A) → ok a ≡ ok b → a ≡ b
ok_injective a b e = cc

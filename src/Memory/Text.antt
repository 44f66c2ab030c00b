-- ===== src/Memory/Text.antt =====
-- The string functions at a terminated string: with fuel above its length each returns, and gives
-- what the bytes of the string say.
use nuvix.Prelude.{
  ℕ, zero, suc, ◌+◌, ◌-◌, ◌%◌, ◌≤◌, ◌<◌, ◌≡◌, refl, ◌≢◌, ◌↔◌, ◌⊎◌, inl, inr, Option, none, some,
  List, [], ◌∷◌, arith, min, ◌==◌, if◌then◌else◌, length, ap, ◌∙◌,
}
use nuvix.Prelude.Int.{ℤ, pos, sub_ℕ}
use nuvix.Memory.{
  Memory, store, strlen_from, strlen, strnlen_from, strnlen, strcmp, strcpy, copy_up, memcpy,
  strchr, strrchr_from, strrchr, memcmp,
}

-- From `s` on the memory holds the bytes `cs`, none of them zero, and then a zero.
abbrev pub IsString : Memory → ℕ → List ℕ → Type 0
IsString m s [] = m s ≡ 0
IsString m s (c ∷ cs) = (m s ≡ c) × (c ≢ 0) × IsString m (s + 1) cs

-- The index of the first `c`, and of the last one.
abbrev pub index_of : ℕ → List ℕ → Option ℕ
index_of c [] = none
index_of c (x ∷ xs) =
    if x == c then some 0 else elim (index_of c xs) [ none ↦ none | some i ↦ some (i + 1) ]

strlen_from_lem :
    (f : ℕ) (m : Memory) (start s : ℕ) (cs : List ℕ)
    → IsString m s cs
    → length cs < f
    → start ≤ s
    → strlen_from f m start s ≡ some (s - start + length cs)
unfolding strlen_from
strlen_from_lem zero m start s cs is fuel h = absurd (omega arith)
strlen_from_lem (suc f) m start s [] is fuel h = ground arith
strlen_from_lem (suc f) m start s (c ∷ cs) is fuel h =
    ground (arith, strlen_from_lem f m start (s + 1) cs)

-- `strlen` of a terminated string is the number of bytes before the terminator.
pub strlen_lem :
    (f : ℕ) (m : Memory) (s : ℕ) (cs : List ℕ)
    → IsString m s cs
    → length cs < f
    → strlen f m s ≡ some (length cs)
unfolding strlen
strlen_lem f m s cs is fuel = ground (arith, strlen_from_lem f m s s cs)

strnlen_from_lem :
    (n : ℕ) (m : Memory) (s len : ℕ) (cs : List ℕ)
    → IsString m (s + len) cs
    → strnlen_from m s n len ≡ len + min (length cs) n
unfolding strnlen_from
strnlen_from_lem zero m s len cs is = omega arith
strnlen_from_lem (suc n) m s len [] is = ground arith
strnlen_from_lem (suc n) m s len (c ∷ cs) is =
    let e : s + len + 1 ≡ s + (len + 1) = omega arith in
    ground (arith, strnlen_from_lem n m s (len + 1) cs (rw e at is.2))

-- `strnlen` is the length of the string, or the bound if that is less.
pub strnlen_lem :
    (n : ℕ) (m : Memory) (s : ℕ) (cs : List ℕ) → IsString m s cs → strnlen m s n ≡ min (length cs) n
unfolding strnlen
strnlen_lem n m s cs is =
    let e : s ≡ s + 0 = omega arith in ground (arith, strnlen_from_lem n m s 0 cs (rw e at is))

-- The difference of the first bytes that differ, where a string is followed by a zero.
abbrev pub diff : List ℕ → List ℕ → ℤ
diff [] [] = pos 0
diff [] (d ∷ ds) = sub_ℕ 0 d
diff (c ∷ cs) [] = sub_ℕ c 0
diff (c ∷ cs) (d ∷ ds) = if c == d then diff cs ds else sub_ℕ c d

diff-eq :
    (m : Memory) (l r : ℕ) (cs ds : List ℕ)
    → IsString m l cs
    → IsString m r ds
    → diff cs ds ≡ pos 0
    → cs ≡ ds
diff-eq m l r [] [] a b e = refl
diff-eq m l r [] (d ∷ ds) a b e = ground arith
diff-eq m l r (c ∷ cs) [] a b e = ground arith
diff-eq m l r (c ∷ cs) (d ∷ ds) a b e = ground (arith, diff-eq m (l + 1) (r + 1) cs ds)

diff_self : (cs : List ℕ) → diff cs cs ≡ pos 0
diff_self [] = refl
diff_self (c ∷ cs) = ground (arith, diff_self cs)

-- `strcmp` of two terminated strings returns the difference of the first bytes that differ.
pub strcmp_lem :
    (f : ℕ) (m : Memory) (l r : ℕ) (cs ds : List ℕ)
    → IsString m l cs
    → IsString m r ds
    → length cs < f
    → strcmp f m l r ≡ some (diff cs ds)
unfolding strcmp
strcmp_lem zero m l r cs ds a b fuel = absurd (omega arith)
strcmp_lem (suc f) m l r [] [] a b fuel = ground arith
strcmp_lem (suc f) m l r [] (d ∷ ds) a b fuel = ground arith
strcmp_lem (suc f) m l r (c ∷ cs) [] a b fuel = ground arith
strcmp_lem (suc f) m l r (c ∷ cs) (d ∷ ds) a b fuel =
    ground (arith, strcmp_lem f m (l + 1) (r + 1) cs ds)

-- `strcmp` of two terminated strings returns, and the result is zero exactly when they are the same.
pub strcmp-zero_iff :
    (f : ℕ) (m : Memory) (l r : ℕ) (cs ds : List ℕ)
    → IsString m l cs
    → IsString m r ds
    → length cs < f
    → (strcmp f m l r ≡ some (diff cs ds)) × ((strcmp f m l r ≡ some (pos 0)) ↔ (cs ≡ ds))
strcmp-zero_iff f m l r cs ds a b fuel =
    let e = strcmp_lem f m l r cs ds a b fuel in
    (e, (λ z. diff-eq m l r cs ds a b (cc), λ same. e ∙ ap some (rw same (diff_self ds))))

-- `strchr` finds the first place of the byte, the terminator included; `NULL` says that there is
-- none.
pub strchr_lem :
    (f : ℕ) (m : Memory) (s c : ℕ) (cs : List ℕ)
    → IsString m s cs
    → length cs < f
    → strchr f m s c
      ≡ some (
          if c % 256 == 0
          then some (s + length cs)
          else elim (index_of (c % 256) cs) [ none ↦ none | some i ↦ some (s + i) ])
unfolding strchr
strchr_lem zero m s c cs is fuel = absurd (omega arith)
strchr_lem (suc f) m s c [] is fuel = ground arith
strchr_lem (suc f) m s c (x ∷ xs) is fuel = ground (arith, strchr_lem f m (s + 1) c xs)

-- What `strrchr` returns for a byte other than the terminator, given the last place seen so far.
abbrev pub last_place : ℕ → ℕ → List ℕ → Option ℕ → Option ℕ
last_place c s [] last = last
last_place c s (x ∷ xs) last = last_place c (s + 1) xs (if x == c then some s else last)

strrchr_from_lem :
    (f : ℕ) (m : Memory) (s c : ℕ) (cs : List ℕ) (last : Option ℕ)
    → IsString m s cs
    → length cs < f
    → strrchr_from f m s c last
      ≡ some (if c % 256 == 0 then some (s + length cs) else last_place (c % 256) s cs last)
unfolding strrchr_from
strrchr_from_lem zero m s c cs last is fuel = absurd (omega arith)
strrchr_from_lem (suc f) m s c [] last is fuel = ground arith
strrchr_from_lem (suc f) m s c (x ∷ xs) last is fuel =
    ground (arith, strrchr_from_lem f m (s + 1) c xs (if m s == c % 256 then some s else last))

-- `strrchr` finds the last place of the byte, the terminator included; `NULL` says that there is
-- none.
pub strrchr_lem :
    (f : ℕ) (m : Memory) (s c : ℕ) (cs : List ℕ)
    → IsString m s cs
    → length cs < f
    → strrchr f m s c
      ≡ some (if c % 256 == 0 then some (s + length cs) else last_place (c % 256) s cs none)
unfolding strrchr
strrchr_lem f m s c cs is fuel = strrchr_from_lem f m s c cs none is fuel

IsString-store :
    (m : Memory) (d v s : ℕ) (cs : List ℕ)
    → (d < s) ⊎ (s + length cs < d)
    → IsString m s cs
    → IsString (store m d v) s cs
IsString-store m d v s [] out is = ground arith
IsString-store m d v s (c ∷ cs) out is =
    (ground arith, is.1, IsString-store m d v (s + 1) cs (outside out) is.2)
  where
    outside : (d < s) ⊎ (s + length (c ∷ cs) < d) → (d < s + 1) ⊎ (s + 1 + length cs < d)
    outside (inl h) = inl (omega arith)
    outside (inr h) = inr (omega arith)

-- `strcpy` of a terminated string to a place that it does not overlap returns, and is `memcpy` of
-- its bytes and the terminator.
pub strcpy_lem :
    (f : ℕ) (m : Memory) (d s : ℕ) (cs : List ℕ)
    → IsString m s cs
    → length cs < f
    → (d + length cs < s) ⊎ (s + length cs < d)
    → strcpy f m d s ≡ some (memcpy m d s (length cs + 1))
unfolding strcpy memcpy copy_up
strcpy_lem zero m d s cs is fuel apart = absurd (omega arith)
strcpy_lem (suc f) m d s [] is fuel apart = ground arith
strcpy_lem (suc f) m d s (c ∷ cs) is fuel apart =
    let e : suc (length cs) + 1 ≡ suc (length cs + 1) = omega arith in
    let out : IsString (store m d (m s)) (s + 1) cs =
      IsString-store m d (m s) (s + 1) cs (outside apart) is.2 in
    rw e (
      ground
        (arith, strcpy_lem f (store m d (m s)) (d + 1) (s + 1) cs out (omega arith) (next apart)))
  where
    outside :
        (d + suc (length cs) < s) ⊎ (s + suc (length cs) < d)
        → (d < s + 1) ⊎ (s + 1 + length cs < d)
    outside (inl h) = inl (omega arith)
    outside (inr h) = inr (omega arith)

    next :
        (d + suc (length cs) < s) ⊎ (s + suc (length cs) < d)
        → (d + 1 + length cs < s + 1) ⊎ (s + 1 + length cs < d + 1)
    next (inl h) = inl (omega arith)
    next (inr h) = inr (omega arith)

same_of_memcmp :
    (n : ℕ) (m : Memory) (l r i : ℕ) → memcmp m l r n ≡ pos 0 → i < n → m (l + i) ≡ m (r + i)
unfolding memcmp
same_of_memcmp zero m l r i e lt = absurd (omega arith)
same_of_memcmp (suc n) m l r zero e lt = ground arith
same_of_memcmp (suc n) m l r (suc i) e lt = ground (arith, same_of_memcmp n m (l + 1) (r + 1) i)

memcmp_of_same :
    (n : ℕ) (m : Memory) (l r : ℕ)
    → ((i : ℕ) → i < n → m (l + i) ≡ m (r + i))
    → memcmp m l r n ≡ pos 0
unfolding memcmp
memcmp_of_same zero m l r h = refl
memcmp_of_same (suc n) m l r h =
    let rest = memcmp_of_same n m (l + 1) (r + 1) (λ i lt. shift i lt) in ground (arith, h 0)
  where
    shift : (i : ℕ) → i < n → m (l + 1 + i) ≡ m (r + 1 + i)
    shift i lt = ground (arith, h (suc i))

-- `memcmp` is zero exactly when the two ranges hold the same bytes.
pub memcmp-zero_iff :
    (n : ℕ) (m : Memory) (l r : ℕ)
    → (memcmp m l r n ≡ pos 0) ↔ ((i : ℕ) → i < n → m (l + i) ≡ m (r + i))
memcmp-zero_iff n m l r = (λ e i. same_of_memcmp n m l r i e, memcmp_of_same n m l r)

-- ===== src/Aof/Writer/Writev.antt =====
-- The loop over `writev`: short writes, interruptions and errors.
use blp_cache.Aof.Writer.{
  write_all, iov_max_slice, wrote, interrupted, write_error, done, failed, waiting, waiting, failed,
  offered, wrote, done, Progress, advance, Written,
}
use blp_cache.Prelude.{
  ==_iff, All, Bool-cases, Bytes, List, [], ap, append-nil, append_assoc, ap₂, arith, concat,
  concat-take-drop, drop, drop-append_ge, drop-append_le, drop-length, inl, inr, leb, leb→le,
  length, length-append, length-drop, refl, subst, suc, sym, take, take-append-drop, take-append_le,
  zero, ℕ, ◌++◌, ◌-◌, ◌<◌, ◌==◌, ◌∙◌, ◌∷◌, ◌≡◌, ◌≢◌, ◌≤◌,
}

-- What the kernel may return: never more bytes than it was offered.
abbrev pub IsHonest : List Written → Bytes → List Bytes → Type 0
IsHonest [] file iovs = Unit
IsHonest (interrupted ∷ answers) file iovs = IsHonest answers file iovs
IsHonest (write_error ∷ answers) file iovs = Unit
IsHonest (wrote n ∷ answers) file iovs =
    (n ≤ length (offered iovs)) × IsHonest answers (file ++ take n (offered iovs)) (advance n iovs)

-- The buffers left behind a write hold the bytes behind those that it took.
concat-advance :
    (n : ℕ) (iovs : List Bytes)
    → n ≤ length (concat iovs)
    → concat (advance n iovs) ≡ drop n (concat iovs)
unfolding advance
concat-advance n [] h = sym (drop-length n [] (omega arith))
concat-advance n (iov ∷ iovs) h = elim (Bool-cases (n == 0)) [
  | inl e ↦ rw (e, (==_iff n 0).0 e) refl
  | inr e ↦ elim (Bool-cases (leb (length iov) n)) [
    | inl f ↦
        rw (e, f)
          (concat-advance (n - length iov) iovs (ground (arith, length-append iov (concat iovs)))
            ∙ sym (drop-append_ge n iov (concat iovs) (leb→le (length iov) n f)))
    | inr f ↦ rw (e, f) (sym (drop-append_le n iov (concat iovs) (ground arith)))
  ]
]

take-concat :
    (k n : ℕ) (iovs : List Bytes)
    → n ≤ length (concat (take k iovs))
    → (take n (concat (take k iovs)) ≡ take n (concat iovs)) × (n ≤ length (concat iovs))
take-concat k n iovs h =
    let front = concat (take k iovs) in
    let back = concat (drop k iovs) in
    let e : front ++ back ≡ concat iovs = concat-take-drop k iovs in
    (
      sym (take-append_le n front back h) ∙ ap (take n) e,
      omega (arith, length-append front back, ap (λ (t : Bytes). length t) e),
    )

-- One honest write moves bytes from the buffers to the end of the file.
pub advance-total :
    (n : ℕ) (file : Bytes) (iovs : List Bytes)
    → n ≤ length (offered iovs)
    → (file ++ take n (offered iovs)) ++ concat (advance n iovs) ≡ file ++ concat iovs
advance-total n file iovs h =
    let (same_bytes, within) = take-concat iov_max_slice n iovs h in
    rw (same_bytes, concat-advance n iovs within)
      (append_assoc file (take n (concat iovs)) (drop n (concat iovs))
        ∙ ap (λ t. file ++ t) (take-append-drop n (concat iovs)))

-- The bytes of the file and of the buffers left.
abbrev pub total : Progress → Bytes
total (done file) = file
total (failed file iovs) = file ++ concat iovs
total (waiting file iovs) = file ++ concat iovs

-- Whatever honest answers the kernel gives, short writes, interruptions and errors included, no byte
-- is lost, repeated or reordered: the file and the buffers left make up the file at the start with
-- the batch behind it. So where the loop is done, the file has all of the batch at its end.
pub total-write_all :
    (answers : List Written) (file : Bytes) (iovs : List Bytes)
    → IsHonest answers file iovs
    → total (write_all answers file iovs) ≡ file ++ concat iovs
unfolding write_all
total-write_all [] file [] h = sym (append-nil file)
total-write_all [] file (iov ∷ iovs) h = refl
total-write_all (a ∷ answers) file [] h = sym (append-nil file)
total-write_all (interrupted ∷ answers) file (iov ∷ iovs) h =
    total-write_all answers file (iov ∷ iovs) h
total-write_all (write_error ∷ answers) file (iov ∷ iovs) h = refl
total-write_all (wrote n ∷ answers) file (iov ∷ iovs) (fits, h) =
    total-write_all answers _ (advance n (iov ∷ iovs)) h ∙ advance-total n file (iov ∷ iovs) fits

-- Answers that make progress: no error, and each write takes at least a byte.
abbrev pub AreFruitful : List Written → Type 0
AreFruitful [] = Unit
AreFruitful (interrupted ∷ answers) = AreFruitful answers
AreFruitful (write_error ∷ answers) = ⊥
AreFruitful (wrote n ∷ answers) = (0 < n) × AreFruitful answers

abbrev pub writes : List Written → ℕ
writes [] = 0
writes (wrote n ∷ answers) = suc (writes answers)
writes (_ ∷ answers) = writes answers

abbrev pub AreNonempty : List Bytes → Type 0
AreNonempty = All (λ b. 0 < length b)

advance-AreNonempty : (n : ℕ) (iovs : List Bytes) → AreNonempty iovs → AreNonempty (advance n iovs)
unfolding advance
advance-AreNonempty n [] h = tt
advance-AreNonempty n (iov ∷ iovs) (h, hs) = elim (Bool-cases (n == 0)) [
  | inl e ↦ rw e (h, hs)
  | inr e ↦ elim (Bool-cases (leb (length iov) n)) [
    | inl f ↦ rw (e, f) (advance-AreNonempty (n - length iov) iovs hs)
    | inr f ↦ rw (e, f) (ground (arith, length-drop n iov), hs)
  ]
]

-- With nonempty payloads and answers that make progress, as many writes as there are bytes finish the
-- batch, however short each of them is: all its bytes are then at the end of the file.
pub write_all-done :
    (answers : List Written) (file : Bytes) (iovs : List Bytes)
    → IsHonest answers file iovs
    → AreFruitful answers
    → AreNonempty iovs
    → length (concat iovs) ≤ writes answers
    → write_all answers file iovs ≡ done (file ++ concat iovs)
unfolding write_all
write_all-done [] file [] h f e b = ap done (sym (append-nil file))
write_all-done [] file (iov ∷ iovs) h f (e, es) b =
    absurd (omega (arith, length-append iov (concat iovs)))
write_all-done (a ∷ answers) file [] h f e b = ap done (sym (append-nil file))
write_all-done (interrupted ∷ answers) file (iov ∷ iovs) h f e b =
    write_all-done answers file (iov ∷ iovs) h f e b
write_all-done (write_error ∷ answers) file (iov ∷ iovs) h f e b = absurd f
write_all-done (wrote n ∷ answers) file (iov ∷ iovs) (fits, h) (f, fs) e b =
    let all = iov ∷ iovs in
    let within = (take-concat iov_max_slice n all fits).1 in
    let left : length (concat (advance n all)) ≡ length (concat all) - n =
      ap (λ (t : Bytes). length t) (concat-advance n all within) ∙ length-drop n (concat all) in
    write_all-done answers _ (advance n all) h fs (advance-AreNonempty n all e) (omega arith)
    ∙ ap done (advance-total n file all fits)

abbrev pub AreEmpty : List Bytes → Type 0
AreEmpty = All (λ b. b ≡ [])

abbrev pub HasNoError : List Written → Type 0
HasNoError = All (λ w. w ≢ write_error)

concat-AreEmpty : (k : ℕ) (iovs : List Bytes) → AreEmpty iovs → concat (take k iovs) ≡ []
concat-AreEmpty zero iovs h = refl
concat-AreEmpty (suc k) [] h = refl
concat-AreEmpty (suc k) (iov ∷ iovs) (e, h) = rw (e, concat-AreEmpty k iovs h) refl

-- A batch of empty payloads alone is never finished: whatever honest answers the kernel gives, as long
-- as none is an error, the loop has written nothing and waits to write the same buffers again.
pub write_all-AreEmpty :
    (answers : List Written) (file iov : Bytes) (iovs : List Bytes)
    → AreEmpty (iov ∷ iovs)
    → IsHonest answers file (iov ∷ iovs)
    → HasNoError answers
    → write_all answers file (iov ∷ iovs) ≡ waiting file (iov ∷ iovs)
unfolding write_all
write_all-AreEmpty [] file iov iovs e h n = refl
write_all-AreEmpty (interrupted ∷ answers) file iov iovs e h (_, n) =
    write_all-AreEmpty answers file iov iovs e h n
write_all-AreEmpty (write_error ∷ answers) file iov iovs e h (n, _) = absurd (n refl)
write_all-AreEmpty (wrote k ∷ answers) file iov iovs e (fits, h) (_, n) =
    let nothing : offered (iov ∷ iovs) ≡ [] = concat-AreEmpty iov_max_slice (iov ∷ iovs) e in
    let zero_bytes : k ≡ 0 = omega (arith, ap (λ (t : Bytes). length t) nothing) in
    let stays : advance k (iov ∷ iovs) ≡ iov ∷ iovs = rw zero_bytes (unfold advance in refl) in
    let same_file : file ++ take k (offered (iov ∷ iovs)) ≡ file =
      rw zero_bytes (append-nil file) in
    let honest : IsHonest answers file (iov ∷ iovs) =
      subst (λ (f : Bytes). IsHonest answers f (iov ∷ iovs)) same_file
        (subst (λ (b : List Bytes). IsHonest answers (file ++ take k (offered (iov ∷ iovs))) b)
          stays h) in
    ap₂ (write_all answers) same_file stays ∙ write_all-AreEmpty answers file iov iovs e honest n

-- ===== src/Config/Dsn/Credentials.antt =====
-- Reading the user and the password back from the connection string.
use Prim.Native.Nat.{◌/◌, ◌%◌}
use transfer_demo.Prelude.{
  ℕ, ◌+◌, ◌-◌, ◌*◌, ◌<◌, ◌≡◌, ◌≢◌, refl, ap, ◌∙◌, Bool, true, false, ◌⊎◌, inl, inr, [], ◌∷◌, ◌++◌,
  ltb, ◌==◌, if◌then◌else◌, Bool-cases, arith,
}
use transfer_demo.Platform.Tracer.{Text, text, same_text}
use transfer_demo.Config.{DbConfig, is_empty}
use transfer_demo.Config.Dsn.{plain_user, hex_digit, escape, user_info, dsn}

abbrev pub AllBytes : Text → Type 0
AllBytes [] = Unit
AllBytes (c ∷ s) = (c < 256) × AllBytes s

abbrev pub hex_value : ℕ → ℕ
hex_value x = if ltb x 58 then x - 48 else x - 55

-- The inverse of the escapes.
unfoldable pub unescape : Text → Text
unescape [] = []
unescape (c ∷ []) = c ∷ []
unescape (c ∷ d ∷ []) = c ∷ d ∷ []
unescape (c ∷ a ∷ b ∷ s) =
    let decoded = unescape s in
    let rest = unescape (a ∷ b ∷ s) in
    if c == 37 then (hex_value a * 16 + hex_value b) ∷ decoded else c ∷ rest

-- What precedes the first `x`, and what follows it.
unfoldable pub before : ℕ → Text → Text
before x [] = []
before x (c ∷ s) = let rest = before x s in if c == x then [] else c ∷ rest

unfoldable pub after : ℕ → Text → Text
after x [] = []
after x (c ∷ s) = let rest = after x s in if c == x then s else rest

abbrev pub Absent : ℕ → Text → Type 0
Absent x [] = Unit
Absent x (c ∷ s) = (c ≢ x) × Absent x s

before-Absent : (x : ℕ) (s t : Text) → Absent x s → before x (s ++ (x ∷ t)) ≡ s
unfolding before
before-Absent x [] t a = ground arith
before-Absent x (c ∷ s) t a = ground (arith, before-Absent x s t a.1)

after-Absent : (x : ℕ) (s t : Text) → Absent x s → after x (s ++ (x ∷ t)) ≡ t
unfolding after
after-Absent x [] t a = ground arith
after-Absent x (c ∷ s) t a = ground (arith, after-Absent x s t a.1)

before-none : (x : ℕ) (s : Text) → Absent x s → before x s ≡ s
unfolding before
before-none x [] a = refl
before-none x (c ∷ s) a = ground (arith, before-none x s a.1)

after-none : (x : ℕ) (s : Text) → Absent x s → after x s ≡ []
unfolding after
after-none x [] a = refl
after-none x (c ∷ s) a = ground (arith, after-none x s a.1)

hex_value-hex_digit : (d : ℕ) → d < 16 → hex_value (hex_digit d) ≡ d
hex_value-hex_digit d h = ground arith

unescape-plain : (c : ℕ) (s : Text) → c ≢ 37 → unescape (c ∷ s) ≡ c ∷ unescape s
unfolding unescape
unescape-plain c [] h = refl
unescape-plain c (d ∷ []) h = refl
unescape-plain c (a ∷ b ∷ s) h = ground arith

byte-parts : (c : ℕ) → c < 256 → (c / 16 < 16) × (c % 16 < 16) × (c / 16 * 16 + c % 16 ≡ c)
byte-parts c h = (omega arith, omega arith, omega arith)

unescape-escaped :
    (c : ℕ) (s : Text)
    → c < 256
    → unescape (37 ∷ hex_digit (c / 16) ∷ hex_digit (c % 16) ∷ s) ≡ c ∷ unescape s
unfolding unescape
unescape-escaped c s h =
    let (high, low, sum) = byte-parts c h in
    rw (hex_value-hex_digit (c / 16) high, hex_value-hex_digit (c % 16) low, sum) refl

module _ (plain : ℕ → Bool) where
  apart : (c x : ℕ) → plain c ≡ true → plain x ≡ false → c ≢ x
  apart c x h k e = cc

  unescape-escape : (s : Text) → plain 37 ≡ false → AllBytes s → unescape (escape plain s) ≡ s
  unfolding escape unescape
  unescape-escape [] p b = refl
  unescape-escape (c ∷ s) p b = elim (Bool-cases (plain c)) [
    | inl h ↦ rw h (
        unescape-plain c (escape plain s) (apart c 37 h p)
        ∙ ap (λ t. c ∷ t) (unescape-escape s p b.1))
    | inr h ↦
        rw h (unescape-escaped c (escape plain s) b.0 ∙ ap (λ t. c ∷ t) (unescape-escape s p b.1))
  ]

  -- A separator that is none of the codes which an escape writes.
  Absent-escape :
      (x : ℕ) (s : Text)
      → (x ≡ 58) ⊎ (x ≡ 64)
      → plain x ≡ false
      → AllBytes s
      → Absent x (escape plain s)
  unfolding escape
  Absent-escape x [] h p b = tt
  Absent-escape x (c ∷ s) h p b = elim (Bool-cases (plain c)) [
    | inl k ↦ rw k (apart c x k p, Absent-escape x s h p b.1)
    | inr k ↦
        let (high, low, sum) = byte-parts c b.0 in
        rw k (
          ground arith,
          (separated (c / 16) high, (separated (c % 16) low, Absent-escape x s h p b.1)),
        )
  ]
    where
      separated : (d : ℕ) → d < 16 → hex_digit d ≢ x
      separated d small = ground arith

-- The text after `postgres://`, up to the first @.
abbrev pub authority : Text → Text
authority t = before 64 (after 47 (after 47 t))

Absent-append : (x : ℕ) (s t : Text) → Absent x s → Absent x t → Absent x (s ++ t)
Absent-append x [] t a b = b
Absent-append x (c ∷ s) t a b = (a.0, Absent-append x s t a.1 b)

user-Absent : (x : ℕ) (s : Text) → (x ≡ 58) ⊎ (x ≡ 64) → AllBytes s → Absent x (escape plain_user s)
user-Absent x s h b = Absent-escape plain_user x s h (ground arith) b

empty-nil : (s : Text) → same_text s [] ≡ true → [] ≡ s
empty-nil [] h = refl
empty-nil (c ∷ s) h = cc

module _ (d : DbConfig) (user : AllBytes (text d.user))
    (password : AllBytes (text d.password)) where
  user_info-Absent : Absent 64 (user_info d)
  unfolding user_info
  user_info-Absent = elim (Bool-cases (is_empty d.password)) [
    | inl h ↦ rw h (user-Absent 64 (text d.user) (inr refl) user)
    | inr h ↦ rw h (
        Absent-append 64 (escape plain_user (text d.user))
          (58 ∷ escape plain_user (text d.password)) (user-Absent 64 (text d.user) (inr refl) user)
          (ground arith, user-Absent 64 (text d.password) (inr refl) password))
  ]

  authority-user_info : authority (dsn d) ≡ user_info d
  unfolding dsn before after
  authority-user_info = before-Absent 64 (user_info d) _ user_info-Absent

  decoded :
      (unescape (before 58 (user_info d)) ≡ text d.user)
      × (unescape (after 58 (user_info d)) ≡ text d.password)
  unfolding user_info unescape
  decoded =
      let s : Text = escape plain_user (text d.user) in
      let t : Text = escape plain_user (text d.password) in
      let apart_58 : Absent 58 s = user-Absent 58 (text d.user) (inl refl) user in
      elim (Bool-cases (is_empty d.password)) [
        | inl h ↦
            rw (h, before-none 58 s apart_58, after-none 58 s apart_58)
              (unescape-escape plain_user (text d.user) refl user, empty-nil (text d.password) h)
        | inr h ↦
            rw (h, before-Absent 58 s t apart_58, after-Absent 58 s t apart_58)
              (
                unescape-escape plain_user (text d.user) refl user,
                unescape-escape plain_user (text d.password) refl password,
              )
      ]

  -- The user and the password, of any bytes, are read back from the connection string: what stands
  -- between `//` and the first @, parted at the first colon, decodes to them.
  pub dsn-credentials :
      (unescape (before 58 (authority (dsn d))) ≡ text d.user)
      × (unescape (after 58 (authority (dsn d))) ≡ text d.password)
  dsn-credentials = rw authority-user_info decoded

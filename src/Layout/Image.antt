-- ===== src/Layout/Image.antt =====
-- packages/graph-renderer/layout-model.mjs: `validateNodeImage`. The image's type is looked up among the three own
-- keys of `IMAGE_SIGNATURES`.
use network_analytics_predic.Prelude.{
  ap, eq_iff, ◌∙◌, ◌⊎◌, zero, suc, ◌++◌, length, ltb→le, subst, arith, inr, inl, Bool-cases,
  Option-cases, drop, ltb, ◌&&◌, ◌≤◌, eqb, leb, not, ◌==◌, ◌↔◌, false, if◌then◌else◌, lower, take,
  true, ◌*◌, Bool, List, Option, String, get_or, ℕ, ◌≡◌, ◌∷◌, [], none, some, refl,
}

pub record ImageInput : Type 0 where
  pub type : Option String
  pub size : Option ℕ
  pub bytes : Option (List ℕ)

-- `IMAGE_SIGNATURES[type]`
unfoldable pub signature_of : String → Option (List ℕ)
signature_of type =
    if type == "image/png"
    then some (137 ∷ 80 ∷ 78 ∷ 71 ∷ [])
    else if type == "image/jpeg"
    then some (255 ∷ 216 ∷ 255 ∷ [])
    else if type == "image/webp"
    then some (82 ∷ 73 ∷ 70 ∷ 70 ∷ [])
    else none

-- `MAX_NODE_IMAGE_BYTES`
abbrev pub max_node_image_bytes : ℕ
max_node_image_bytes = 512 * 1024

-- `signature.every((byte, index) => bytes[index] === byte)`
unfoldable pub starts_with : List ℕ → List ℕ → Bool
starts_with [] bytes = true
starts_with (b ∷ signature) [] = false
starts_with (b ∷ signature) (x ∷ bytes) = eqb x b && starts_with signature bytes

abbrev pub webp_mark : List ℕ
webp_mark = 87 ∷ 69 ∷ 66 ∷ 80 ∷ []

pub record ImageCheck : Type 0 where
  pub accepted : Bool
  pub reason : String

abbrev rejected : String → ImageCheck
rejected reason = record { accepted = false; reason = reason }

abbrev pub type_of : ImageInput → String
type_of input = lower (get_or input.type "")

abbrev pub front_of : ImageInput → List ℕ
front_of input = take 12 (get_or input.bytes [])

abbrev check_signature : String → List ℕ → List ℕ → ImageCheck
check_signature type signature front =
    if not (starts_with signature front)
    then rejected "Image signature does not match its type"
    else if type == "image/webp" && not (starts_with webp_mark (drop 8 front))
    then rejected "Image signature does not match its type"
    else record { accepted = true; reason = "Image accepted" }

abbrev check_size : String → ℕ → List ℕ → List ℕ → ImageCheck
check_size type size signature front =
    if leb size 0
    then rejected "Image is empty"
    else if ltb max_node_image_bytes size
    then rejected "Image exceeds 512 KB"
    else check_signature type signature front

unfoldable pub validate_node_image : ImageInput → ImageCheck
unfolding signature_of
validate_node_image input = elim (signature_of (type_of input)) [
  | none ↦ rejected "Only PNG, JPEG, and WebP images are supported"
  | some signature ↦ check_size (type_of input) (get_or input.size 0) signature (front_of input)
]

check_size-accepted :
    (type : String) (size : ℕ) (signature front : List ℕ)
    → ((check_size type size signature front).accepted ≡ true) ↔ (
        (1 ≤ size)
        × (size ≤ max_node_image_bytes)
        × (starts_with signature front ≡ true)
        × ((type == "image/webp" && not (starts_with webp_mark (drop 8 front))) ≡ false))
check_size-accepted type size signature front = elim (Bool-cases (leb size 0)) [
  | inl e ↦ rw e (λ h. cc h, λ h. absurd (ground (arith, e, h.0)))
  | inr e ↦ elim (Bool-cases (ltb max_node_image_bytes size)) [
    | inl f ↦ rw (e, f) (λ h. cc h, λ h. absurd (ground (arith, f, h.1)))
    | inr f ↦ elim (Bool-cases (starts_with signature front)) [
      | inr g ↦ rw (e, f, g) (λ h. cc h, λ h. cc h.2)
      | inl g ↦
          elim (Bool-cases (type == "image/webp" && not (starts_with webp_mark (drop 8 front)))) [
            | inl k ↦ rw (e, f, g, k) (λ h. cc h, λ h. cc h.3)
            | inr k ↦
                rw (e, f, g, k) (λ h. (ground (arith, e), ltb→le _ _ f, refl, refl), λ h. refl)
          ]
    ]
  ]
]

-- The signature begins the first bytes of a list, so far as they are taken, exactly when it begins the list.
starts_with-take :
    (signature : List ℕ) (n : ℕ) (bytes : List ℕ)
    → length signature ≤ n
    → (starts_with signature (take n bytes) ≡ true)
      ↔ ((rest : List ℕ) × (bytes ≡ signature ++ rest))
unfolding starts_with
starts_with-take [] n bytes h = (λ k. (bytes, refl), λ k. refl)
starts_with-take (b ∷ signature) zero bytes h = absurd (omega (arith, h))
starts_with-take (b ∷ signature) (suc n) [] h = (λ k. cc k, λ k. cc k.1)
starts_with-take (b ∷ signature) (suc n) (x ∷ bytes) h =
    let later = starts_with-take signature n bytes (omega (arith, h)) in
    (
      λ k.
          let (rest, e) = later.0 (ground (arith, k)) in
          let same : x ≡ b = ground (arith, k) in (rest, rw (same, e) refl),
      λ k.
          let same : x ≡ b = cc k.1 in
          let e : bytes ≡ signature ++ k.0 = cc k.1 in
          let longer = later.1 (k.0, e) in ground (arith, same, longer),
    )

-- The mark of a WebP image stands after four more bytes.
webp-mark :
    (rest : List ℕ)
    → (starts_with webp_mark (drop 4 (take 8 rest)) ≡ true)
      ↔ ((a b c d : ℕ) × (more : List ℕ) × (rest ≡ a ∷ b ∷ c ∷ d ∷ 87 ∷ 69 ∷ 66 ∷ 80 ∷ more))
unfolding starts_with
webp-mark [] = (λ k. cc k, λ k. cc k.5)
webp-mark (a ∷ []) = (λ k. cc k, λ k. cc k.5)
webp-mark (a ∷ b ∷ []) = (λ k. cc k, λ k. cc k.5)
webp-mark (a ∷ b ∷ c ∷ []) = (λ k. cc k, λ k. cc k.5)
webp-mark (a ∷ b ∷ c ∷ d ∷ bytes) =
    let marked = starts_with-take webp_mark 4 bytes (omega arith) in
    (
      λ k. let (more, e) = marked.0 k in (a, b, c, d, more, rw e refl),
      λ k. let e : bytes ≡ 87 ∷ 69 ∷ 66 ∷ 80 ∷ k.4 = cc k.5 in marked.1 (k.4, e),
    )

-- The first bytes of an image of one of the three types.
abbrev pub HasFormat : String → List ℕ → Type 0
HasFormat type bytes =
    ((type ≡ "image/png") × ((rest : List ℕ) × (bytes ≡ 137 ∷ 80 ∷ 78 ∷ 71 ∷ rest)))
    ⊎ (((type ≡ "image/jpeg") × ((rest : List ℕ) × (bytes ≡ 255 ∷ 216 ∷ 255 ∷ rest)))
        ⊎ ((type ≡ "image/webp")
            × ((a b c d : ℕ) × (rest : List ℕ) × (bytes
                  ≡ 82 ∷ 73 ∷ 70 ∷ 70 ∷ a ∷ b ∷ c ∷ d ∷ 87 ∷ 69 ∷ 66 ∷ 80 ∷ rest))))

-- What the checks of the signature ask for.
abbrev Signed : String → List ℕ → Type 0
Signed type bytes =
    (signature : List ℕ) × (signature_of type ≡ some signature)
    × (starts_with signature (take 12 bytes) ≡ true)
    × ((type == "image/webp" && not (starts_with webp_mark (drop 8 (take 12 bytes)))) ≡ false)

-- A type of an image is one of the three, with its signature, or it has none.
signature_of-cases :
    (type : String)
    → ((type ≡ "image/png") × (signature_of type ≡ some (137 ∷ 80 ∷ 78 ∷ 71 ∷ [])))
      ⊎ (((type ≡ "image/jpeg") × (signature_of type ≡ some (255 ∷ 216 ∷ 255 ∷ [])))
          ⊎ (((type ≡ "image/webp") × (signature_of type ≡ some (82 ∷ 73 ∷ 70 ∷ 70 ∷ [])))
              ⊎ (signature_of type ≡ none)))
unfolding signature_of
signature_of-cases type = elim (Bool-cases (type == "image/png")) [
  | inl e ↦ inl ((eq_iff type "image/png").0 e, rw e refl)
  | inr e ↦ elim (Bool-cases (type == "image/jpeg")) [
    | inl f ↦ inr (inl ((eq_iff type "image/jpeg").0 f, rw (e, f) refl))
    | inr f ↦ elim (Bool-cases (type == "image/webp")) [
      | inl g ↦ inr (inr (inl ((eq_iff type "image/webp").0 g, rw (e, f, g) refl)))
      | inr g ↦ inr (inr (inr (rw (e, f, g) refl)))
    ]
  ]
]

not_marked_false :
    (type : String) (marked : Bool)
    → type ≡ "image/webp"
    → (type == "image/webp" && not marked) ≡ false
    → marked ≡ true
not_marked_false type true t h = refl
not_marked_false type false t h = ground (arith, h, eq_iff type "image/webp", t)

Signed-HasFormat : (type : String) (bytes : List ℕ) → Signed type bytes → HasFormat type bytes
Signed-HasFormat type bytes (signature, e, begun, mark) = elim (signature_of-cases type) [
  | inl (t, s) ↦
      let same : signature ≡ 137 ∷ 80 ∷ 78 ∷ 71 ∷ [] = cc (e, s) in
      inl (
        t,
        (starts_with-take (137 ∷ 80 ∷ 78 ∷ 71 ∷ []) 12 bytes (omega arith)).0 (rw same at begun),
      )
  | inr (inl (t, s)) ↦
      let same : signature ≡ 255 ∷ 216 ∷ 255 ∷ [] = cc (e, s) in
      inr (
        inl (
          t,
          (starts_with-take (255 ∷ 216 ∷ 255 ∷ []) 12 bytes (omega arith)).0 (rw same at begun),
        ))
  | inr (inr (inl (t, s))) ↦
      let same : signature ≡ 82 ∷ 73 ∷ 70 ∷ 70 ∷ [] = cc (e, s) in
      let (rest, front) =
        (starts_with-take (82 ∷ 73 ∷ 70 ∷ 70 ∷ []) 12 bytes (omega arith)).0 (rw same at begun) in
      let marked = not_marked_false type (starts_with webp_mark (drop 8 (take 12 bytes))) t mark in
      let after_four : starts_with webp_mark (drop 4 (take 8 rest)) ≡ true = rw front at marked in
      let (a, b, c, d, more, e2) = (webp-mark rest).0 after_four in
      inr (inr (t, (a, b, c, d, more, front ∙ ap (λ r. 82 ∷ 73 ∷ 70 ∷ 70 ∷ r) e2)))
  | inr (inr (inr s)) ↦ cc (e, s)
]

HasFormat-Signed : (type : String) (bytes : List ℕ) → HasFormat type bytes → Signed type bytes
unfolding signature_of starts_with
HasFormat-Signed type bytes (inl (t, (rest, e))) =
    (137 ∷ 80 ∷ 78 ∷ 71 ∷ [], rw t refl, rw e refl, rw t refl)
HasFormat-Signed type bytes (inr (inl (t, (rest, e)))) =
    (255 ∷ 216 ∷ 255 ∷ [], rw t refl, rw e refl, rw t refl)
HasFormat-Signed type bytes (inr (inr (t, (a, b, c, d, rest, e)))) =
    (82 ∷ 73 ∷ 70 ∷ 70 ∷ [], rw t refl, rw e refl, rw (t, e) refl)

-- An image is accepted exactly when it has at least one byte and at most 512 KB, and either its type, in lower case, is
-- PNG and its bytes begin with 137, 80, 78 and 71, or it is JPEG and they begin with 255, 216 and 255, or it is WebP and
-- they begin with 82, 73, 70 and 70 and go on, after any four bytes, with 87, 69, 66 and 80.
pub validate_node_image-accepted :
    (input : ImageInput)
    → ((validate_node_image input).accepted ≡ true) ↔ (
        (1 ≤ get_or input.size 0)
        × (get_or input.size 0 ≤ 524288)
        × HasFormat (lower (get_or input.type "")) (get_or input.bytes []))
unfolding validate_node_image
validate_node_image-accepted input =
    let size = get_or input.size 0 in
    let bytes = get_or input.bytes [] in
    elim (Option-cases (signature_of (type_of input))) [
      | inl e ↦
          rw (validate_node_image, e)
            (
              λ h. cc h,
              λ h. let signed = HasFormat-Signed (type_of input) bytes h.2 in cc (e, signed.1),
            )
      | inr (signature, e) ↦
          let checked = check_size-accepted (type_of input) size signature (front_of input) in
          rw (validate_node_image, e)
            (
              λ h.
                  let c = checked.0 h in
                  (c.0, c.1, Signed-HasFormat (type_of input) bytes (signature, e, c.2, c.3)),
              λ h.
                  let signed = HasFormat-Signed (type_of input) bytes h.2 in
                  let same : signed.0 ≡ signature = cc (e, signed.1) in
                  checked.1 (
                    h.0,
                    h.1,
                    subst (λ s. starts_with s (front_of input) ≡ true) same signed.2,
                    signed.3,
                  ),
            )
    ]

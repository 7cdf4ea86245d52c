-- ===== src/Stdio/Homomorphism.antt =====
-- The printing functions of stdio.c over two outputs that do the same.
use cuore_os.Base.{
  ℕ, zero, suc, ◌+◌, ◌-◌, ◌≡◌, refl, ◌∙◌, ap, Bool, true, false, ◌||◌, Option, none, some, List, [],
  ◌∷◌, ltb, leb, ◌==◌, ◌^◌, u8, u64, bytes, if◌then◌else◌, length,
}
use cuore_os.Stdio.{Output}
use cuore_os.Stdio.Format.{
  Flags, Arg, no_flags, next_word, next_text, next_octets, signed_arg, unsigned_arg, fmt_uint,
  fmt_signed, fmt_string, fmt_u8_dec, fmt_u8_hex2, fmt_octets,
}
use cuore_os.Stdio.Number.{uint_digits}
use cuore_os.Stdio.Spec.{Spec, read_spec}
use cuore_os.Stdio.Print.{
  is_signed, is_unsigned, base_of, prefix_of, literal, behind_literal, behind_char, head_or_nul,
  args_behind, write_literal, unsigned_conversion, pointer_conversion, mac_conversion,
  ip_conversion, convert, format_from,
}

map_if {ℓ κ} :
    {A : Type ℓ} {B : Type κ} (f : A → B) (b : Bool) (x y : A)
    → f (if b then x else y) ≡ (if b then f x else f y)
map_if f true x y = refl
map_if f false x y = refl

if_both {ℓ} :
    {A : Type ℓ} (b : Bool) {x x' y y' : A}
    → x ≡ x'
    → y ≡ y'
    → (if b then x else y) ≡ (if b then x' else y')
if_both true e f = e
if_both false e f = f

module _ {ℓ κ} {C : Type ℓ} {D : Type κ} (one : Output C) (two : Output D) (h : C → D) where
  -- `h` commutes with the operations.
  pub record IsHomomorphism : Type (ℓ ⊔ κ) where
    pub putc : (ctx : C) (c : ℕ) → h (one.putc ctx c) ≡ two.putc (h ctx) c
    pub write : (ctx : C) (s : List ℕ) → h (one.write ctx s) ≡ two.write (h ctx) s
    pub pad : (ctx : C) (ch n : ℕ) → h (one.pad ctx ch n) ≡ two.pad (h ctx) ch n

module _ {ℓ κ} {C : Type ℓ} {D : Type κ} (one : Output C) (two : Output D) (h : C → D)
    (hom : IsHomomorphism one two h) where
  -- Both sides of a conditional.
  map_both :
      (b : Bool) (x y : C) (x' y' : D)
      → h x ≡ x'
      → h y ≡ y'
      → h (if b then x else y) ≡ (if b then x' else y')
  map_both b x y x' y' e f = map_if h b x y ∙ if_both b e f

  write_twice :
      (ctx : C) (s t : List ℕ)
      → h (one.write (one.write ctx s) t) ≡ two.write (two.write (h ctx) s) t
  write_twice ctx s t = hom.write _ t ∙ ap (λ d. two.write d t) (hom.write ctx s)

  pad_write :
      (ctx : C) (s : List ℕ) (c n : ℕ)
      → h (one.write (one.pad ctx c n) s) ≡ two.write (two.pad (h ctx) c n) s
  pad_write ctx s c n = hom.write _ s ∙ ap (λ d. two.write d s) (hom.pad ctx c n)

  write_pad :
      (ctx : C) (s : List ℕ) (c n : ℕ)
      → h (one.pad (one.write ctx s) c n) ≡ two.pad (two.write (h ctx) s) c n
  write_pad ctx s c n = hom.pad _ c n ∙ ap (λ d. two.pad d c n) (hom.write ctx s)

  write_before :
      (before : C) (before' : D) (s : List ℕ)
      → h before ≡ before'
      → h (one.write before s) ≡ two.write before' s
  write_before before before' s e = hom.write before s ∙ ap (λ d. two.write d s) e

  fmt_uint-map :
      (val base width : ℕ) (flags : Flags) (upper : Bool) (prefix : List ℕ) (ctx : C)
      → h (fmt_uint one val base width flags upper prefix ctx)
        ≡ fmt_uint two val base width flags upper prefix (h ctx)
  unfolding fmt_uint
  fmt_uint-map val base width flags upper prefix ctx =
      let digits = uint_digits val base upper in
      let padding = width - (length digits + length prefix) in
      let before =
        map_both flags.left _ _ _ _ (hom.write ctx prefix)
          (map_both flags.zero_pad _ _ _ _ (write_pad ctx prefix _ _) (pad_write ctx prefix _ _)) in
      map_both flags.left _ _ _ _
        (hom.pad _ b' ' padding ∙ ap (λ d. two.pad d b' ' padding) (write_before _ _ digits before))
        (write_before _ _ digits before)

  fmt_signed-map :
      (val width : ℕ) (flags : Flags) (ctx : C)
      → h (fmt_signed one val width flags ctx) ≡ fmt_signed two val width flags (h ctx)
  unfolding fmt_signed
  fmt_signed-map val width flags ctx =
      map_both (leb (2 ^ 63) val) _ _ _ _
        (fmt_uint-map (u64 (2 ^ 64 - 1 - val + 1)) 10 width flags false (b'-' ∷ []) ctx)
        (fmt_uint-map val 10 width flags false
          (if flags.sign then b'+' ∷ [] else if flags.space then b' ' ∷ [] else []) ctx)

  fmt_string-map :
      (s : Option (List ℕ)) (width : ℕ) (flags : Flags) (ctx : C)
      → h (fmt_string one s width flags ctx) ≡ fmt_string two s width flags (h ctx)
  unfolding fmt_string
  fmt_string-map none width flags ctx =
      map_both flags.left _ _ _ _ (write_pad ctx _ _ _) (pad_write ctx _ _ _)
  fmt_string-map (some s) width flags ctx =
      map_both flags.left _ _ _ _ (write_pad ctx _ _ _) (pad_write ctx _ _ _)

  fmt_u8_dec-map : (v : ℕ) (ctx : C) → h (fmt_u8_dec one v ctx) ≡ fmt_u8_dec two v (h ctx)
  unfolding fmt_u8_dec
  fmt_u8_dec-map v ctx =
      map_both (leb 100 v) _ _ _ _ (hom.write ctx _)
        (map_both (leb 10 v) _ _ _ _ (hom.write ctx _) (hom.putc ctx _))

  fmt_u8_hex2-map : (v : ℕ) (ctx : C) → h (fmt_u8_hex2 one v ctx) ≡ fmt_u8_hex2 two v (h ctx)
  unfolding fmt_u8_hex2
  fmt_u8_hex2-map v ctx = hom.write ctx _

  fmt_octets-map :
      (f : ℕ → C → C) (g : ℕ → D → D)
      → ((v : ℕ) (ctx : C) → h (f v ctx) ≡ g v (h ctx))
      → (separator count : ℕ) (octs : List ℕ) (ctx : C)
      → h (fmt_octets one f separator count octs ctx)
        ≡ fmt_octets two g separator count octs (h ctx)
  unfolding fmt_octets
  fmt_octets-map f g e sep zero octs ctx = refl
  fmt_octets-map f g e sep (suc zero) octs ctx = e _ ctx
  fmt_octets-map f g e sep (suc (suc n)) [] ctx =
      fmt_octets-map f g e sep (suc n) [] (one.putc (f 0 ctx) sep)
      ∙ ap (fmt_octets two g sep (suc n) []) (hom.putc _ sep ∙ ap (λ d. two.putc d sep) (e 0 ctx))
  fmt_octets-map f g e sep (suc (suc n)) (o ∷ octs) ctx =
      fmt_octets-map f g e sep (suc n) octs (one.putc (f o ctx) sep)
      ∙ ap (fmt_octets two g sep (suc n) octs) (hom.putc _ sep ∙ ap (λ d. two.putc d sep) (e o ctx))

  mac_conversion-map :
      (mac : Option (List ℕ)) (spec : Spec) (ctx : C)
      → h (mac_conversion one mac spec ctx) ≡ mac_conversion two mac spec (h ctx)
  unfolding mac_conversion
  mac_conversion-map none spec ctx = fmt_string-map _ spec.width spec.flags ctx
  mac_conversion-map (some mac) spec ctx = fmt_octets-map _ _ fmt_u8_hex2-map b':' 6 mac ctx

  ip_conversion-map :
      (ip : Option (List ℕ)) (ctx : C) → h (ip_conversion one ip ctx) ≡ ip_conversion two ip (h ctx)
  unfolding ip_conversion
  ip_conversion-map none ctx = fmt_octets-map _ _ fmt_u8_dec-map b'.' 4 [] ctx
  ip_conversion-map (some ip) ctx = fmt_octets-map _ _ fmt_u8_dec-map b'.' 4 ip ctx

  unsigned_conversion-map :
      (spec : Spec) (conv : ℕ) (ctx : C)
      → h (unsigned_conversion one spec conv ctx) ≡ unsigned_conversion two spec conv (h ctx)
  unfolding unsigned_conversion
  unsigned_conversion-map spec conv ctx =
      let val = unsigned_arg spec.len (next_word spec.args).0 in
      fmt_uint-map val (base_of conv) spec.width spec.flags (conv == b'X')
        (prefix_of conv spec.flags val) ctx

  pointer_conversion-map :
      (spec : Spec) (ctx : C)
      → h (pointer_conversion one spec ctx) ≡ pointer_conversion two spec (h ctx)
  unfolding pointer_conversion
  pointer_conversion-map spec ctx =
      fmt_uint-map (u64 (next_word spec.args).0) 16 (if ltb 0 spec.width then spec.width else 18)
        (record no_flags { zero_pad = true }) false (bytes "0x") ctx

  convert-map :
      (spec : Spec) (conv : ℕ) (ctx : C)
      → h (convert one spec conv ctx) ≡ convert two spec conv (h ctx)
  unfolding convert
  convert-map spec conv ctx =
      map_both (is_signed conv) _ _ _ _
        (fmt_signed-map (signed_arg spec.len (next_word spec.args).0) spec.width spec.flags ctx)
        (map_both (is_unsigned conv) _ _ _ _ (unsigned_conversion-map spec conv ctx) (
          map_both (conv == b'p') _ _ _ _ (pointer_conversion-map spec ctx) (
            map_both (conv == b's') _ _ _ _
              (fmt_string-map (next_text spec.args).0 spec.width spec.flags ctx)
              (map_both (conv == b'c') _ _ _ _ (hom.putc ctx (u8 (next_word spec.args).0)) (
                map_both (conv == b'I') _ _ _ _ (ip_conversion-map (next_octets spec.args).0 ctx) (
                  map_both (conv == b'M') _ _ _ _
                    (mac_conversion-map (next_octets spec.args).0 spec ctx)
                    (map_both (conv == b'%') _ _ _ _ (hom.putc ctx b'%')
                      (hom.putc _ conv ∙ ap (λ d. two.putc d conv) (hom.putc ctx b'%')))))))))

  write_literal-map :
      (p : List ℕ) (ctx : C) → h (write_literal one p ctx) ≡ write_literal two p (h ctx)
  unfolding write_literal
  write_literal-map p ctx = map_both (length (literal p) == 0) _ _ _ _ refl (hom.write ctx _)

  unfoldable pub map_some : Option C → Option D
  map_some none = none
  map_some (some ctx) = some (h ctx)

  -- The main loop, over the two outputs.
  pub format_from-map :
      (fuel : ℕ) (p : List ℕ) (args : List Arg) (ctx : C)
      → map_some (format_from one fuel p args ctx) ≡ format_from two fuel p args (h ctx)
  unfolding format_from map_some
  format_from-map zero p args ctx = refl
  format_from-map (suc fuel) p args ctx =
      let from = behind_literal p in
      let spec = read_spec (behind_char from) args in
      let conv = head_or_nul spec.rest in
      let stops = length spec.rest == 0 || leb (2 ^ 31) spec.width in
      map_if map_some (leb (length from) 1) _ _
      ∙ if_both (leb (length from) 1) (ap some (write_literal-map p ctx)) (
          map_if map_some stops _ _
          ∙ if_both stops refl (
              format_from-map fuel (behind_char spec.rest) (args_behind conv spec.args)
                (convert one spec conv (write_literal one p ctx))
              ∙ ap (format_from two fuel (behind_char spec.rest) (args_behind conv spec.args)) (
                  convert-map spec conv (write_literal one p ctx)
                  ∙ ap (convert two spec conv) (write_literal-map p ctx))))

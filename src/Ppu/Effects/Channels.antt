-- ===== src/Ppu/Effects/Channels.antt =====
-- What a blended scanline shows, channel by channel.
use native.Mathlib.Decide.{ℕ_discrete}
use gba_emulator.Base.{
  Bool, ap, ap₂, arith, bit_or, bit_or_fields, bits, false, if◌then◌else◌, ltb, min, not, refl, suc,
  test_bit, true, u16, update, zero, ℕ, ◌%◌, ◌*◌, ◌+◌, ◌-◌, ◌/◌, ◌<◌, ◌==◌, ◌^◌, ◌||◌, ◌∙◌, ◌≡◌,
  ◌≢◌, ◌≤◌,
}
use gba_emulator.Ppu.State.{Ppu}
use gba_emulator.Ppu.Effects.{
  is_first_target, is_second_target, unpack_rgb, pack_rgb, coefficient, mix, lighten, darken,
  blend_pixel, blend_loop, ppu_apply_blend_scanline,
}

-- Channel 0, 1 or 2 of a colour: red, green or blue.
abbrev pub channel : ℕ → ℕ → ℕ
channel k color = color / 2 ^ (5 * k) % 32

packed : (r g b : ℕ) → r < 32 → g < 32 → b < 32 → pack_rgb r g b ≡ b * 1024 + g * 32 + r
unfolding pack_rgb
packed r g b hr hg hb =
    ap (λ t. u16 (bit_or t r)) (bit_or_fields 10 b (g * 32) (omega arith))
    ∙ ap (λ t. u16 (bit_or t r)) {x = b * 1024 + g * 32} {y = (b * 32 + g) * 2 ^ 5} (omega arith)
    ∙ ap u16 (bit_or_fields 5 (b * 32 + g) r (omega arith))
    ∙ omega arith

pack_channel :
    (r g b k : ℕ)
    → r < 32
    → g < 32
    → b < 32
    → k < 3
    → channel k (pack_rgb r g b) ≡ (if k == 0 then r else if k == 1 then g else b)
pack_channel r g b zero hr hg hb h = omega (arith, packed r g b hr hg hb)
pack_channel r g b (suc zero) hr hg hb h = omega (arith, packed r g b hr hg hb)
pack_channel r g b (suc (suc zero)) hr hg hb h = omega (arith, packed r g b hr hg hb)
pack_channel r g b (suc (suc (suc k))) hr hg hb h = absurd (omega arith)

-- The registers and the inputs stay as the pixels are done.
loop_frame :
    (n : ℕ) (ppu : Ppu)
    → blend_loop n ppu ≡ record ppu { scanline_buffer = (blend_loop n ppu).scanline_buffer }
unfolding blend_loop
loop_frame zero ppu = refl
loop_frame (suc n) ppu =
    ap {A = Ppu}
      (λ p. record p {
        scanline_buffer =
            update (blend_loop n ppu).scanline_buffer n (blend_pixel (blend_loop n ppu) n);
      })
      (loop_frame n ppu)

-- A pixel depends on its own place in the buffer.
pixel_local :
    (ppu : Ppu) (buffer : ℕ → ℕ) (x : ℕ)
    → buffer x ≡ ppu.scanline_buffer x
    → blend_pixel (record ppu { scanline_buffer = buffer }) x ≡ blend_pixel ppu x
unfolding blend_pixel
pixel_local ppu buffer x e = rw e refl

loop_lem :
    (n x : ℕ) (ppu : Ppu)
    → (blend_loop n ppu).scanline_buffer x
      ≡ (if ltb x n then blend_pixel ppu x else ppu.scanline_buffer x)
unfolding blend_loop
loop_lem zero x ppu = ground arith
loop_lem (suc n) x ppu = ground (
  arith,
  loop_lem n x ppu,
  ap (λ p. blend_pixel p n) (loop_frame n ppu),
  pixel_local ppu (blend_loop n ppu).scanline_buffer n,
)

-- The effects on one channel, from the registers: the channel `c` of the top pixel, `c2` of the one
-- below it.
unfoldable pub blended : Ppu → ℕ → ℕ → ℕ → ℕ
blended ppu x c c2 =
    let eva = min 16 (ppu.bldalpha % 32) in
    let evb = min 16 (ppu.bldalpha / 256 % 32) in
    let evy = min 16 (ppu.bldy % 32) in
    let mode = bits ppu.bldcnt 7 6 in
    if mode == 0 || not (test_bit ppu.bldcnt (ppu.top_layer x))
    then c
    else if mode == 1
    then if test_bit ppu.bldcnt (8 + ppu.second_layer x)
      then min 31 ((c * eva + c2 * evb) / 16)
      else c
    else if mode == 2
    then c + (31 - c) * evy / 16
    else c - c * evy / 16

coefficient-min : (register : ℕ) → coefficient register ≡ min 16 (register % 32)
unfolding coefficient
coefficient-min register = ground arith

lighten-lt : (c evy : ℕ) → c < 32 → evy ≤ 16 → lighten c evy < 32
lighten-lt c evy h p = grind (arith)

mix-min : (c1 eva c2 evb : ℕ) → mix c1 eva c2 evb ≡ min 31 ((c1 * eva + c2 * evb) / 16)
mix-min c1 eva c2 evb = ground arith

-- An effect on each of the channels.
each_channel :
    (f : ℕ → ℕ → ℕ) (color color2 k : ℕ)
    → ((c c2 : ℕ) → c < 32 → f c c2 < 32)
    → k < 3
    → channel k (
        pack_rgb
          (f (color % 32) (color2 % 32))
          (f (color / 2 ^ 5 % 32) (color2 / 2 ^ 5 % 32))
          (f (color / 2 ^ 10 % 32) (color2 / 2 ^ 10 % 32)))
      ≡ f (channel k color) (channel k color2)
each_channel f color color2 k small h =
    pack_channel (f (color % 32) (color2 % 32)) (f (color / 2 ^ 5 % 32) (color2 / 2 ^ 5 % 32))
      (f (color / 2 ^ 10 % 32) (color2 / 2 ^ 10 % 32)) k (small _ _ (omega arith))
      (small _ _ (omega arith)) (small _ _ (omega arith)) h
    ∙ chosen k h
  where
    chosen :
        (k : ℕ)
        → k < 3
        → (if k == 0
            then f (color % 32) (color2 % 32)
            else if k == 1
            then f (color / 2 ^ 5 % 32) (color2 / 2 ^ 5 % 32)
            else f (color / 2 ^ 10 % 32) (color2 / 2 ^ 10 % 32))
          ≡ f (channel k color) (channel k color2)
    chosen zero h = ap₂ f {x = color % 32} {y = color / 1 % 32} (omega arith) (omega arith)
    chosen (suc zero) h = refl
    chosen (suc (suc zero)) h = refl
    chosen (suc (suc (suc k))) h = absurd (omega arith)

-- The choice of the effect, on the packed colours and on a channel.
choice :
    (see : ℕ → ℕ) (first second : Bool) (mode color p1 p2 p3 e1 e2 e3 : ℕ)
    → see p1 ≡ e1
    → see p2 ≡ e2
    → see p3 ≡ e3
    → mode < 4
    → mode ≢ 0
    → see (
        if not first
        then color
        else if mode == 1
        then if not second then color else p1
        else if mode == 2
        then p2
        else if mode == 3
        then p3
        else color)
      ≡ (if mode == 0 || not first
          then see color
          else if mode == 1
          then if second then e1 else see color
          else if mode == 2
          then e2
          else e3)
choice see first second mode color p1 p2 p3 e1 e2 e3 q1 q2 q3 below ne = ground arith

pixel_channel :
    (ppu : Ppu) (x k : ℕ)
    → k < 3
    → bits ppu.bldcnt 7 6 ≢ 0
    → channel k (blend_pixel ppu x)
      ≡ blended ppu x (channel k (ppu.scanline_buffer x)) (channel k (ppu.second_pixel x))
unfolding blend_pixel blended is_first_target is_second_target unpack_rgb
pixel_channel ppu x k h mode =
    let eva = coefficient ppu.bldalpha in
    let evb = coefficient (ppu.bldalpha / 2 ^ 8) in
    let evy = coefficient ppu.bldy in
    let color = ppu.scanline_buffer x in
    let color2 = ppu.second_pixel x in
    let a : eva ≡ min 16 (ppu.bldalpha % 32) = coefficient-min ppu.bldalpha in
    let b : evb ≡ min 16 (ppu.bldalpha / 2 ^ 8 % 32) = coefficient-min (ppu.bldalpha / 2 ^ 8) in
    let y : evy ≡ min 16 (ppu.bldy % 32) = coefficient-min ppu.bldy in
    let c = channel k color in
    let c2 = channel k color2 in
    let mixed = each_channel (λ c c2. mix c eva c2 evb) color color2 k (λ c c2 p. ground arith) h in
    let lightened =
      each_channel (λ c c2. lighten c evy) color color2 k
        (λ c c2 p. lighten-lt c evy p (omega (arith, y))) h in
    let darkened = each_channel (λ c c2. darken c evy) color color2 k (λ c c2 p. omega arith) h in
    choice (channel k) (test_bit ppu.bldcnt (ppu.top_layer x))
      (test_bit ppu.bldcnt (8 + ppu.second_layer x)) (bits ppu.bldcnt 7 6) color _ _ _ _ _ _
      (mixed ∙ mix-min c eva c2 evb ∙ ap₂ (λ s t. min 31 ((c * s + c2 * t) / 16)) a b)
      (lightened ∙ ap (λ t. c + (31 - c) * t / 16) y) (darkened ∙ ap (λ t. c - c * t / 16) y)
      (omega arith) mode

-- The blending of a scanline puts the effect that the registers select on each of the three
-- channels of each of the 240 pixels by itself, and changes no other place of the buffer.
pub ppu_apply_blend_scanline-channel :
    (ppu : Ppu) (x k : ℕ)
    → k < 3
    → channel k ((ppu_apply_blend_scanline ppu).scanline_buffer x) ≡ (
        let c = channel k (ppu.scanline_buffer x) in
        if ltb x 240 then blended ppu x c (channel k (ppu.second_pixel x)) else c)
unfolding ppu_apply_blend_scanline
ppu_apply_blend_scanline-channel ppu x k h = elim (ℕ_discrete (bits ppu.bldcnt 7 6) 0) [
  | yes idle ↦
      let test : (bits ppu.bldcnt 7 6 == 0) ≡ true = ground arith in
      simp test (unfold blended in simp test (ground arith))
  | no busy ↦
      let test : (bits ppu.bldcnt 7 6 == 0) ≡ false = ground arith in
      simp test (ap (channel k) (loop_lem 240 x ppu) ∙ ground (arith, pixel_channel ppu x k h busy))
]

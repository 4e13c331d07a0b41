-- ===== src/Ppu/Scanline/Mode3.antt =====
-- A line of the direct-colour mode 3, from the video memory to the framebuffer.
use gba_emulator.Base.{
  Bool, ap, arith, bits, false, if◌then◌else◌, leb, ltb, refl, Bool-cases, inl, inr, suc, test_bit,
  true, zero, ℕ, ◌%◌, ◌&&◌, ◌*◌, ◌+◌, ◌-◌, ◌/◌, ◌<◌, ◌==◌, ◌^◌, ◌∙◌, ◌≡◌,
}
use gba_emulator.Bus.State.{Bus}
use gba_emulator.Ppu.State.{Ppu}
use gba_emulator.Ppu.Effects.{screen_width, ppu_apply_blend_scanline}
use gba_emulator.Ppu.Pixel.{halfword, put_pixel, each_pixel}
use gba_emulator.Ppu.Bitmap.{direct_pixel, ppu_render_mode3}
use gba_emulator.Ppu.Sprites.{ppu_render_sprites}
use gba_emulator.Ppu.Scanline.{
  blank_line, fill_backdrop, render_mode, show_line, advance_refs, ppu_render_scanline,
}

each_pixel-keeps :
    (P : Ppu → Type 0) (draw : Ppu → ℕ → Ppu)
    → ((p : Ppu) (x : ℕ) → P p → P (draw p x))
    → (n : ℕ) (ppu : Ppu) → P ppu
    → P (each_pixel draw n ppu)
unfolding each_pixel
each_pixel-keeps P draw e zero ppu p = p
each_pixel-keeps P draw e (suc n) ppu p =
    e (each_pixel draw n ppu) n (each_pixel-keeps P draw e n ppu p)

-- What drawing keeps
abbrev Kept : Ppu → Ppu → Type 0
Kept start ppu =
    (ppu.framebuffer ≡ start.framebuffer)
    × (ppu.vcount ≡ start.vcount)
    × (ppu.dispcnt ≡ start.dispcnt)
    × (ppu.bldcnt ≡ start.bldcnt)

direct-Kept :
    (bus : Bus) (base n : ℕ) (ppu : Ppu) → Kept ppu (each_pixel (direct_pixel bus base) n ppu)
unfolding direct_pixel put_pixel
direct-Kept bus base n ppu =
    each_pixel-keeps (Kept ppu) (direct_pixel bus base) (λ p x h. h) n ppu (refl, refl, refl, refl)

next_column :
    (color : ℕ → ℕ) (old prev n x : ℕ)
    → prev ≡ (if ltb x n then color x else old)
    → (if x == n then color n else prev) ≡ (if ltb x (suc n) then color x else old)
next_column color old prev n x e = ground arith

direct_line :
    (bus : Bus) (base n : ℕ) (ppu : Ppu) (x : ℕ)
    → (each_pixel (direct_pixel bus base) n ppu).scanline_buffer x
      ≡ (if ltb x n then halfword bus.vram (base + x * 2) else ppu.scanline_buffer x)
unfolding each_pixel direct_pixel put_pixel
direct_line bus base zero ppu x = ground arith
direct_line bus base (suc n) ppu x =
    next_column (λ x. halfword bus.vram (base + x * 2)) (ppu.scanline_buffer x)
      ((each_pixel (direct_pixel bus base) n ppu).scanline_buffer x) n x
      (direct_line bus base n ppu x)

render_mode3_on :
    (bus : Bus) (ppu : Ppu)
    → test_bit ppu.dispcnt 10 ≡ true
    → ppu_render_mode3 bus ppu
      ≡ each_pixel (direct_pixel bus (ppu.vcount * screen_width * 2)) screen_width ppu
unfolding ppu_render_mode3
render_mode3_on bus ppu on = rw (on) refl

no_sprites_over :
    (bus : Bus) (ppu : Ppu)
    → test_bit ppu.dispcnt 12 ≡ false
    → (if test_bit ppu.dispcnt 12 then ppu_render_sprites bus ppu else ppu) ≡ ppu
no_sprites_over bus ppu off = rw (off) refl

no_blend : (ppu : Ppu) → bits ppu.bldcnt 7 6 ≡ 0 → ppu_apply_blend_scanline ppu ≡ ppu
unfolding ppu_apply_blend_scanline
no_blend ppu e = rw (e) refl

-- The state before the copy to the framebuffer
mode3_layers :
    (bus : Bus) (ppu : Ppu)
    → test_bit ppu.dispcnt 10 ≡ true
    → test_bit ppu.dispcnt 12 ≡ false
    → bits ppu.bldcnt 7 6 ≡ 0
    → ppu_apply_blend_scanline (render_mode bus 3 ppu)
      ≡ each_pixel (direct_pixel bus (ppu.vcount * screen_width * 2)) screen_width ppu
unfolding render_mode
mode3_layers bus ppu on no_sprites no_effect =
    let drawn = each_pixel (direct_pixel bus (ppu.vcount * screen_width * 2)) screen_width ppu in
    let (same_frame, same_line, same_cnt, same_bld) =
      direct-Kept bus (ppu.vcount * screen_width * 2) screen_width ppu in
    ap
      (λ p.
        ppu_apply_blend_scanline (if test_bit p.dispcnt 12 then ppu_render_sprites bus p else p))
      (render_mode3_on bus ppu on)
    ∙ ap ppu_apply_blend_scanline
        (no_sprites_over bus drawn (ap (λ d. test_bit d 12) same_cnt ∙ no_sprites))
    ∙ no_blend drawn (ap (λ b. bits b 7 6) same_bld ∙ no_effect)

-- The framebuffer after the copy of a line
shown_lem :
    (ppu : Ppu) (j : ℕ)
    → (advance_refs (show_line ppu)).framebuffer j ≡ (
        if leb (ppu.vcount * 240) j && ltb j (ppu.vcount * 240 + 240)
        then ppu.scanline_buffer (0 + (j - ppu.vcount * 240))
        else ppu.framebuffer j)
unfolding advance_refs show_line
shown_lem ppu j = refl

-- Column `k` of the line `v` in the framebuffer
line_column :
    (color : ℕ → ℕ) (fb : ℕ → ℕ) (old v j : ℕ)
    → (if leb (v * 240) j && ltb j (v * 240 + 240)
        then if ltb (0 + (j - v * 240)) 240
          then color (v * 240 * 2 + (0 + (j - v * 240)) * 2)
          else old
        else fb j)
      ≡ (if j / 240 == v then color (j * 2) else fb j)
line_column color fb old v j = elim (Bool-cases (j / 240 == v)) [
  | inl here ↦
      let at : j / 240 ≡ v = ground arith in
      let low : leb (v * 240) j ≡ true = ground arith in
      let high : ltb j (v * 240 + 240) ≡ true = ground arith in
      let column : ltb (0 + (j - v * 240)) 240 ≡ true = ground arith in
      rw (low, high, column, here) (ap color (omega arith))
  | inr away ↦
      let off : (leb (v * 240) j && ltb j (v * 240 + 240)) ≡ false = ground arith in
      rw (off, away) refl
]

past_tests :
    (p q : Bool) (a b c : Ppu) → p ≡ false → q ≡ false → (if p then a else if q then b else c) ≡ c
past_tests p q a b c e1 e2 = rw (e1, e2) refl

rendered_as :
    (bus : Bus) (ppu : Ppu)
    → test_bit ppu.dispcnt 7 ≡ false
    → ppu.vcount < 160
    → ppu_render_scanline bus ppu
      ≡ advance_refs (
          show_line (
            ppu_apply_blend_scanline
              (render_mode bus (ppu.dispcnt % 2 ^ 3) (fill_backdrop bus ppu))))
unfolding ppu_render_scanline
rendered_as bus ppu lit visible =
    past_tests (leb 160 ppu.vcount) (test_bit ppu.dispcnt 7) ppu (blank_line ppu)
      (advance_refs (
        show_line (
          ppu_apply_blend_scanline
            (render_mode bus (ppu.dispcnt % 2 ^ 3) (fill_backdrop bus ppu)))))
      (ground arith) lit

-- In mode 3, on a visible line, with background 2 shown, without forced blank, sprites and colour
-- effect, `ppu_render_scanline` makes the line of the framebuffer the halfwords of VRAM at the same
-- places, and keeps every other pixel of the framebuffer.
pub mode3_line :
    (bus : Bus) (ppu : Ppu) (j : ℕ)
    → ppu.dispcnt % 2 ^ 3 ≡ 3
    → test_bit ppu.dispcnt 7 ≡ false
    → test_bit ppu.dispcnt 10 ≡ true
    → test_bit ppu.dispcnt 12 ≡ false
    → bits ppu.bldcnt 7 6 ≡ 0
    → ppu.vcount < 160
    → (ppu_render_scanline bus ppu).framebuffer j
      ≡ (if j / 240 == ppu.vcount then halfword bus.vram (j * 2) else ppu.framebuffer j)
unfolding fill_backdrop
mode3_line bus ppu j mode lit on no_sprites no_effect visible =
    let start = fill_backdrop bus ppu in
    let v = ppu.vcount in
    let base = v * 240 * 2 in
    let drawn = each_pixel (direct_pixel bus base) screen_width start in
    let (same_frame, same_line, same_cnt, same_bld) = direct-Kept bus base screen_width start in
    let column = direct_line bus base screen_width start (0 + (j - v * 240)) in
    let layers : ppu_apply_blend_scanline (render_mode bus (ppu.dispcnt % 2 ^ 3) start) ≡ drawn =
      ap (λ mode. ppu_apply_blend_scanline (render_mode bus mode start)) mode
      ∙ mode3_layers bus start on no_sprites no_effect in
    ap (λ p. p.framebuffer j) (rendered_as bus ppu lit visible)
    ∙ ap (λ p. (advance_refs (show_line p)).framebuffer j) layers
    ∙ shown_lem drawn j
    ∙ rw (same_line, same_frame, column) refl
    ∙ line_column (halfword bus.vram) ppu.framebuffer (start.scanline_buffer (0 + (j - v * 240))) v
        j

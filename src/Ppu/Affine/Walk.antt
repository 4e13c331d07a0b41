-- ===== src/Ppu/Affine/Walk.antt =====
-- The walk of `ppu_render_bg_affine` along a line, against the closed form of src/ppu/affine.c.
use native.Mathlib.Nat.{mod-add-mod, mod-eq_of_lt}
use gba_emulator.Base.{
  ap, arith, either_case, refl, sign16, suc, sym, u32, zero, ℕ, ◌%◌, ◌*◌, ◌+◌, ◌-◌, ◌<◌, ◌^◌, ◌∙◌,
  ◌≡◌, ◌==◌, ◌||◌, test_bit,
}
use gba_emulator.Bus.State.{Bus}
use gba_emulator.Cpu.Shifter.{asr32}
use gba_emulator.Ppu.State.{Ppu}
use gba_emulator.Ppu.Effects.{screen_width}
use gba_emulator.Ppu.Pixel.{put_pixel, each_pixel}
use gba_emulator.Ppu.Affine.{
  ppu_affine_transform, affine_pixel, draw_texel, is_outside, texel, tiles_per_side, wrap_texture,
  affine_loop, ppu_render_bg_affine,
}

-- A pixel at the coordinates that `ppu_affine_transform` gives from the state `start` of a line
unfoldable pub transformed_pixel : Bus → ℕ → Ppu → Ppu → ℕ → Ppu
transformed_pixel bus bg_index start ppu screen_x =
    let k = bg_index - 2 in
    let (tex_x, tex_y) =
      ppu_affine_transform (start.bg_pa k) (start.bg_pc k) (start.bg_ref_x k) (start.bg_ref_y k)
        screen_x in
    affine_pixel bus bg_index ppu tex_x tex_y screen_x

-- Drawing keeps the matrix.
abbrev SameMatrix : Ppu → Ppu → Type 0
SameMatrix start ppu = (ppu.bg_pa ≡ start.bg_pa) × (ppu.bg_pc ≡ start.bg_pc)

draw_texel-matrix :
    (bus : Bus) (bg_index : ℕ) (start ppu : Ppu) (tex_x tex_y x : ℕ)
    → SameMatrix start ppu
    → SameMatrix start (draw_texel bus bg_index ppu tex_x tex_y x)
unfolding draw_texel put_pixel
draw_texel-matrix bus bg_index start ppu tex_x tex_y x h =
    either_case (SameMatrix start) (texel bus (ppu.bg_cnt bg_index) tex_x tex_y == 0) h h

affine_pixel-matrix :
    (bus : Bus) (bg_index : ℕ) (start ppu : Ppu) (px py x : ℕ)
    → SameMatrix start ppu
    → SameMatrix start (affine_pixel bus bg_index ppu px py x)
unfolding affine_pixel
affine_pixel-matrix bus bg_index start ppu px py x h =
    let bgcnt = ppu.bg_cnt bg_index in
    let size = tiles_per_side bgcnt * 8 in
    let tex_x = asr32 px 8 in
    let tex_y = asr32 py 8 in
    let inside = draw_texel-matrix bus bg_index start ppu tex_x tex_y x h in
    let wrapped =
      draw_texel-matrix bus bg_index start ppu (wrap_texture tex_x size) (wrap_texture tex_y size) x
        h in
    either_case (SameMatrix start) (test_bit bgcnt 13) wrapped
      (either_case (SameMatrix start) (is_outside tex_x size || is_outside tex_y size) h inside)

drawn-matrix :
    (bus : Bus) (bg_index : ℕ) (start : Ppu) (n : ℕ)
    → SameMatrix start (each_pixel (transformed_pixel bus bg_index start) n start)
unfolding each_pixel transformed_pixel
drawn-matrix bus bg_index start zero = (refl, refl)
drawn-matrix bus bg_index start (suc n) =
    let k = bg_index - 2 in
    let at =
      ppu_affine_transform (start.bg_pa k) (start.bg_pc k) (start.bg_ref_x k) (start.bg_ref_y k)
        n in
    affine_pixel-matrix bus bg_index start
      (each_pixel (transformed_pixel bus bg_index start) n start) at.0 at.1 n
      (drawn-matrix bus bg_index start n)

step_of : (ref m x : ℕ) → u32 (u32 (ref + m * x) + m) ≡ u32 (ref + m * (x + 1))
step_of ref m x =
    mod-add-mod (ref + m * x) (2 ^ 32) m
    ∙ ap (λ t. t % 2 ^ 32) {x = ref + m * x + m} {y = ref + m * (x + 1)} (omega arith)

start_of : (ref m : ℕ) → ref < 2 ^ 32 → ref ≡ u32 (ref + m * 0)
start_of ref m h =
    sym (mod-eq_of_lt h) ∙ ap (λ t. t % 2 ^ 32) {x = ref} {y = ref + m * 0} (omega arith)

first_pixel :
    (bus : Bus) (bg_index : ℕ) (start : Ppu)
    → start ≡ each_pixel (transformed_pixel bus bg_index start) 0 start
unfolding each_pixel
first_pixel bus bg_index start = refl

next_pixel :
    (bus : Bus) (bg_index : ℕ) (start : Ppu) (x : ℕ)
    → let k = bg_index - 2 in
      let draw = transformed_pixel bus bg_index start in
      affine_pixel bus bg_index
        (each_pixel draw x start)
        (u32 (start.bg_ref_x k + sign16 (start.bg_pa k) * x))
        (u32 (start.bg_ref_y k + sign16 (start.bg_pc k) * x))
        x
      ≡ each_pixel draw (x + 1) start
unfolding each_pixel transformed_pixel ppu_affine_transform
next_pixel bus bg_index start x =
    ap (λ n. each_pixel (transformed_pixel bus bg_index start) n start) {x = suc x} {y = x + 1}
      (omega arith)

same_loop :
    (bus : Bus) (bg_index left x : ℕ) {p p' : Ppu} {px px' py py' : ℕ}
    → p ≡ p'
    → px ≡ px'
    → py ≡ py'
    → affine_loop bus bg_index left p px py x ≡ affine_loop bus bg_index left p' px' py' x
same_loop bus bg_index left x e1 e2 e3 = cc

-- The loop from pixel `x` on, with the coordinates of `x`, ends the line.
loop_lem :
    (bus : Bus) (bg_index : ℕ) (start : Ppu) (left x : ℕ)
    → let k = bg_index - 2 in
      affine_loop bus bg_index left
        (each_pixel (transformed_pixel bus bg_index start) x start)
        (u32 (start.bg_ref_x k + sign16 (start.bg_pa k) * x))
        (u32 (start.bg_ref_y k + sign16 (start.bg_pc k) * x))
        x
      ≡ each_pixel (transformed_pixel bus bg_index start) (x + left) start
unfolding affine_loop
loop_lem bus bg_index start zero x =
    ap (λ n. each_pixel (transformed_pixel bus bg_index start) n start) {x = x} {y = x + 0}
      (omega arith)
loop_lem bus bg_index start (suc left) x =
    let k = bg_index - 2 in
    let draw = transformed_pixel bus bg_index start in
    let drawn = each_pixel draw x start in
    let px = u32 (start.bg_ref_x k + sign16 (start.bg_pa k) * x) in
    let py = u32 (start.bg_ref_y k + sign16 (start.bg_pc k) * x) in
    let (same_pa, same_pc) = drawn-matrix bus bg_index start x in
    let one_more : affine_pixel bus bg_index drawn px py x ≡ each_pixel draw (x + 1) start =
      next_pixel bus bg_index start x in
    let next_px : u32 (px + sign16 (drawn.bg_pa k))
        ≡ u32 (start.bg_ref_x k + sign16 (start.bg_pa k) * (x + 1)) =
      ap (λ f. u32 (px + sign16 (f k))) same_pa
      ∙ step_of (start.bg_ref_x k) (sign16 (start.bg_pa k)) x in
    let next_py : u32 (py + sign16 (drawn.bg_pc k))
        ≡ u32 (start.bg_ref_y k + sign16 (start.bg_pc k) * (x + 1)) =
      ap (λ f. u32 (py + sign16 (f k))) same_pc
      ∙ step_of (start.bg_ref_y k) (sign16 (start.bg_pc k)) x in
    same_loop bus bg_index left (x + 1) one_more next_px next_py
    ∙ loop_lem bus bg_index start left (x + 1)
    ∙ ap (λ n. each_pixel draw n start) {x = x + 1 + left} {y = x + suc left} (omega arith)

-- On a line, `ppu_render_bg_affine` draws each pixel at the texture coordinates that
-- `ppu_affine_transform` computes for it from the matrix and the reference point of 32 bits at the
-- start of the line: its running sums, of 32 bits, never drift.
pub ppu_render_bg_affine_lem :
    (bus : Bus) (ppu : Ppu) (bg_index : ℕ)
    → ppu.bg_ref_x (bg_index - 2) < 2 ^ 32
    → ppu.bg_ref_y (bg_index - 2) < 2 ^ 32
    → ppu_render_bg_affine bus ppu bg_index
      ≡ each_pixel (transformed_pixel bus bg_index ppu) screen_width ppu
unfolding ppu_render_bg_affine
ppu_render_bg_affine_lem bus ppu bg_index h p =
    let k = bg_index - 2 in
    same_loop bus bg_index screen_width 0 (first_pixel bus bg_index ppu)
      (start_of (ppu.bg_ref_x k) (sign16 (ppu.bg_pa k)) h)
      (start_of (ppu.bg_ref_y k) (sign16 (ppu.bg_pc k)) p)
    ∙ loop_lem bus bg_index ppu screen_width 0

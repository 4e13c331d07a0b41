-- ===== src/Ppu/Sprites/Bounds.antt =====
-- The reads of the tiled layers and of the sprites stay in the memories.
use native.Mathlib.Nat.{mul-le-mul}
use gba_emulator.Base.{
  List, [], ◌∷◌, entry, ◌&&◌, true, ◌≡◌, refl, suc, zero, arith, Bool, if◌then◌else◌, leb, ℕ, ◌%◌,
  ◌*◌, ◌+◌, ◌/◌, ◌<◌, ◌^◌, ◌≤◌,
}
use gba_emulator.Bus.State.{vram_size}
use gba_emulator.Ppu.Pixel.{vram_mirror}
use gba_emulator.Ppu.Regular.{screen_base, char_base, map_address, tile_address4, tile_address8}
use gba_emulator.Ppu.Sprites.{
  obj_tile_base, Sprite, width, sprite_width, base_tile, tile_number, sprite_address, color_8bpp,
  sprite_palette,
}

mirror-lt : (offset : ℕ) → offset < 0x20000 → vram_mirror offset < vram_size
unfolding vram_mirror
mirror-lt offset h = ground arith

map_address-lt :
    (bgcnt map_x map_y : ℕ)
    → map_x < 512
    → map_y < 512
    → vram_mirror (map_address bgcnt map_x map_y) + 1 < vram_size
unfolding map_address screen_base vram_mirror
map_address-lt bgcnt map_x map_y h p = ground arith

tile_address4-lt :
    (bgcnt tile tx ty : ℕ)
    → tile < 2 ^ 10
    → tx < 8
    → ty < 8
    → tile_address4 bgcnt tile tx ty < vram_size
unfolding tile_address4 char_base
tile_address4-lt bgcnt tile tx ty h p q =
    mirror-lt (bgcnt / 2 ^ 2 % 2 ^ 2 * 0x4000 + tile * 32 + ty * 4 + tx / 2) (omega arith)

tile_address8-lt :
    (bgcnt tile tx ty : ℕ)
    → tile < 2 ^ 10
    → tx < 8
    → ty < 8
    → tile_address8 bgcnt tile tx ty < vram_size
unfolding tile_address8 char_base
tile_address8-lt bgcnt tile tx ty h p q =
    mirror-lt (bgcnt / 2 ^ 2 % 2 ^ 2 * 0x4000 + tile * 64 + ty * 8 + tx) (omega arith)

base_tile-lt : (s : Sprite) → base_tile s < 2 ^ 10
unfolding base_tile
base_tile-lt s = ground arith

-- A table whose entries are at most 64
all_small : List ℕ → Bool
all_small [] = true
all_small (x ∷ xs) = leb x 64 && all_small xs

entry-le : (xs : List ℕ) (j : ℕ) → all_small xs ≡ true → entry 0 xs j ≤ 64
unfolding all_small
entry-le [] j h = omega arith
entry-le (x ∷ xs) zero h = ground arith
entry-le (x ∷ xs) (suc j) h = entry-le xs j (ground arith)

width_of-le : (shape size : ℕ) → sprite_width shape size ≤ 64
unfolding sprite_width all_small
width_of-le zero size = entry-le (8 ∷ 16 ∷ 32 ∷ 64 ∷ []) size refl
width_of-le (suc zero) size = entry-le (16 ∷ 32 ∷ 32 ∷ 64 ∷ []) size refl
width_of-le (suc (suc zero)) size = entry-le (8 ∷ 8 ∷ 16 ∷ 32 ∷ []) size refl
width_of-le (suc (suc (suc n))) size = omega arith

width-le : (s : Sprite) → width s ≤ 64
unfolding width
width-le s = width_of-le (s.attr0 / 2 ^ 14 % 2 ^ 2) (s.attr1 / 2 ^ 14 % 2 ^ 2)

tile_rows-le : (s : Sprite) (row : ℕ) → row < 8 → row * (width s / 8) ≤ 7 * 8
tile_rows-le s row h =
    let wide = width-le s in
    mul-le-mul {n₁ = row} {m₁ = width s / 8} {n₂ = 7} {m₂ = 8} (omega arith) (omega (arith, wide))

tile_number-lt :
    (mapping_1d : Bool) (s : Sprite) (row col : ℕ)
    → row < 8
    → col < 8
    → tile_number mapping_1d s row col < 1300
unfolding tile_number
tile_number-lt mapping_1d s row col h p =
    let base = base_tile-lt s in
    let product : row * (width s / 8) ≤ 7 * 8 = tile_rows-le s row h in ground arith

sprite_address-lt :
    (s : Sprite) (tile row col : ℕ)
    → tile < 1300
    → row < 8
    → col < 8
    → sprite_address s tile row col < vram_size
unfolding sprite_address
sprite_address-lt s tile row col h p q =
    mirror-lt
      (if color_8bpp s
        then obj_tile_base + tile * 32 + row * 8 + col
        else obj_tile_base + tile * 32 + row * 4 + col / 2)
      (ground arith)

sprite_palette-lt :
    (s : Sprite) (color_idx : ℕ)
    → color_idx < (if color_8bpp s then 256 else 16)
    → sprite_palette s color_idx + 1 < 0x400
unfolding sprite_palette
sprite_palette-lt s color_idx h = ground arith

-- The renderers of tiles read VRAM within its 96 KB and the palette within its 1 KB: the entry of a
-- map at a place below 512 by 512, the pixel of a background tile in both colour modes, and the
-- pixel and the colour of a sprite at a place in it below 64 by 64, for every register and
-- attribute, in both tile mappings.
pub renderers_in_bounds :
    (bgcnt map_x map_y tile tx ty : ℕ) (mapping_1d : Bool) (s : Sprite) (tex_x tex_y color_idx : ℕ)
    → map_x < 512
    → map_y < 512
    → tile < 2 ^ 10
    → tx < 8
    → ty < 8
    → tex_x < 64
    → tex_y < 64
    → color_idx < (if color_8bpp s then 256 else 16)
    → (vram_mirror (map_address bgcnt map_x map_y) + 1 < vram_size)
      × (tile_address4 bgcnt tile tx ty < vram_size)
      × (tile_address8 bgcnt tile tx ty < vram_size)
      × (sprite_address s (tile_number mapping_1d s (tex_y / 8) (tex_x / 8)) (tex_y % 8) (tex_x % 8)
          < vram_size)
      × (sprite_palette s color_idx + 1 < 0x400)
renderers_in_bounds bgcnt map_x map_y tile tx ty mapping_1d s tex_x tex_y color_idx mx my t x y sx
      sy c =
    (
      map_address-lt bgcnt map_x map_y mx my,
      tile_address4-lt bgcnt tile tx ty t x y,
      tile_address8-lt bgcnt tile tx ty t x y,
      sprite_address-lt s (tile_number mapping_1d s (tex_y / 8) (tex_x / 8)) (tex_y % 8) (tex_x % 8)
          (tile_number-lt mapping_1d s (tex_y / 8) (tex_x / 8) (omega arith) (omega arith))
          (omega arith) (omega arith),
      sprite_palette-lt s color_idx c,
    )

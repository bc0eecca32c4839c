-- ===== src/Display/Bus.antt =====
-- src/display/ssd1306.cpp: the messages with commands fill their buffers.
use passinglink.Common.{
  ℕ, ◌+◌, List, [], ◌∷◌, ◌++◌, length, take, drop, write_at, length-append, length-take,
  length-write_at, take-write, take_all, append-nil, append_assoc, ◌≡◌, refl, ap, sym, ◌∙◌, arith,
}
use passinglink.Display.Commands.{ssd1306_cmd_size, ssd1306_cmd_pack, ssd1306_command}

-- The bytes of all commands, one after the other.
abbrev pub joined : List (List ℕ) → List ℕ
joined [] = []
joined (arg ∷ args) = arg ++ joined args

length-joined : (args : List (List ℕ)) → length (joined args) ≡ ssd1306_cmd_size args
unfolding ssd1306_cmd_size
length-joined [] = refl
length-joined (arg ∷ args) = omega (arith, length-append arg (joined args), length-joined args)

-- Packing commands into a buffer that ends where they end.
cmd_pack_lem :
    (buf : List ℕ) (offset : ℕ) (args : List (List ℕ))
    → length buf ≡ offset + ssd1306_cmd_size args
    → ssd1306_cmd_pack buf offset args ≡ take offset buf ++ joined args
unfolding ssd1306_cmd_pack ssd1306_cmd_size
cmd_pack_lem buf offset [] size =
    sym (append-nil (take offset buf) ∙ take_all offset buf (omega arith))
cmd_pack_lem buf offset (arg ∷ args) size =
    cmd_pack_lem (write_at buf offset arg) (offset + length arg) args
      (omega (arith, length-write_at buf arg offset (omega arith)))
    ∙ ap (λ l. l ++ joined args)
        (take-write (take offset buf) arg (drop (offset + length arg) buf) (offset + length arg)
          (omega (arith, length-take offset buf)))
    ∙ append_assoc (take offset buf) arg (joined args)

-- A buffer of one byte more than the sizes of the commands is filled by them behind a null byte, whatever
-- it held before, and nothing is written behind it.
pub ssd1306_command-joined :
    (garbage : List ℕ) (commands : List (List ℕ))
    → length garbage ≡ ssd1306_cmd_size commands + 1
    → ssd1306_command garbage commands ≡ 0x00 ∷ joined commands
unfolding ssd1306_command
ssd1306_command-joined [] commands size = absurd (omega arith)
ssd1306_command-joined (g ∷ garbage) commands size =
    cmd_pack_lem (0x00 ∷ garbage) 1 commands (omega arith)

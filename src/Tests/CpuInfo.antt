-- ===== src/Tests/CpuInfo.antt =====
-- /proc/cpuinfo: runs and instances.
use procfs.Base.{List, [], ◌∷◌, ◌++◌, Bytes, ◌≡◌, refl, codes, bytes_eq, arith, All, inl, inr}
use procfs.CpuInfo.Arm.{parse_cpu_info_arm}
use procfs.CpuInfo.Arm.Features.{parse_cpu_info_arm-no_features}
use procfs.CpuInfo.S390x.{parse_cpu_info_s390x}
use procfs.Go.Yields.{Yields}
use procfs.CpuInfo.Numbered.Consecutive.{parse_cpu_info_riscv_panic}
use procfs.CpuInfo.Numbered.{riscv_field, parse_cpu_info_mips, parse_cpu_info_riscv}
use procfs.CpuInfo.Printed.{IsOther, Block, AreRead, lines_of}
use procfs.CpuInfo.Printed.Mips
use procfs.CpuInfo.Printed.Ppc
use procfs.CpuInfo.Printed.X86
use procfs.CpuInfo.{
  CpuInfo, Entry, first_cpu, line_entry, parse_cpu_info_ppc, zero_cpu_info, parse_cpu_info_x86,
  first_non_empty_line,
}
use procfs.Go.Result.{Result, ok, panic, each}
use procfs.Go.Scanner.{reader, scan, scan_again}
use procfs.Go.Slices.{set_at}
use procfs.Go.Strconv.{parse_uint}
use procfs.Go.Text.{fields, has_prefix, trim_space, contains, split_two_text}

-- A number as its text.
abbrev text_float : Bytes → Result Bytes
text_float s = ok s

abbrev input : Bytes
input =
    codes "processor\t: 0\nvendor_id\t: GenuineIntel\ncpu MHz\t\t: 799.998\nflags\t\t: fpu vme\n"
    ++ codes "power management:\n\nprocessor\t: 7\nsiblings\t: 8\n"

abbrev zero : CpuInfo Bytes
zero = zero_cpu_info [] text_float

parse_test :
    parse_cpu_info_x86 [] text_float input
    ≡ ok (
        record zero {
          vendor_id = codes "GenuineIntel";
          cpu_mhz = codes "799.998";
          flags = codes "fpu" ∷ codes "vme" ∷ [];
        }
        ∷ record zero { processor = 7; siblings = 8 }
        ∷ [])
unfolding parse_cpu_info_x86 scan fields trim_space contains split_two_text set_at parse_uint each
    bytes_eq
parse_test = refl

-- The processors of the file.
abbrev first_block : Block (X86.Line Bytes)
first_block = record {
  number = 0;
  text = codes "0";
  lines =
      X86.Line.vendor_id (codes "GenuineIntel")
      ∷ X86.Line.cpu_mhz (codes "799.998") (codes "799.998")
      ∷ X86.Line.flags (codes "fpu vme") (codes "fpu" ∷ codes "vme" ∷ [])
      ∷ X86.Line.other (codes "power management:")
      ∷ X86.Line.other []
      ∷ [];
}

abbrev second_block : Block (X86.Line Bytes)
second_block = record { number = 7; text = codes "7"; lines = X86.Line.siblings (codes "8") 8 ∷ [] }

input-lines :
    (scan (reader input)).lines
    ≡ lines_of (codes "processor\t: ") X86.printed (first_block ∷ second_block ∷ [])
unfolding scan
input-lines = refl

power_management-IsOther : IsOther X86.known (codes "power management:")
unfolding contains split_two_text trim_space bytes_eq
power_management-IsOther = inr (
  codes "power management:",
  [],
  refl,
  refl,
  (
    refl,
    (
      refl,
      (
        refl,
        (
          refl,
          (
            refl,
            (
              refl,
              (
                refl,
                (
                  refl,
                  (
                    refl,
                    (
                      refl,
                      (
                        refl,
                        (
                          refl,
                          (
                            refl,
                            (
                              refl,
                              (
                                refl,
                                (
                                  refl,
                                  (
                                    refl,
                                    (
                                      refl,
                                      (
                                        refl,
                                        (
                                          refl,
                                          (
                                            refl,
                                            (refl, (refl, (refl, (refl, (refl, (refl, tt)))))),
                                          ),
                                        ),
                                      ),
                                    ),
                                  ),
                                ),
                              ),
                            ),
                          ),
                        ),
                      ),
                    ),
                  ),
                ),
              ),
            ),
          ),
        ),
      ),
    ),
  ),
)

blocks-AreRead : AreRead (X86.IsRead [] text_float) (first_block ∷ second_block ∷ [])
unfolding parse_uint each fields contains split_two_text trim_space bytes_eq
blocks-AreRead = (
  (refl, (tt, (refl, (refl, (power_management-IsOther, (inl refl, tt)))))),
  ((refl, (refl, tt)), tt),
)

parse_cpu_info_x86-printed_example :
    parse_cpu_info_x86 [] text_float input
    ≡ ok (
        record zero {
          vendor_id = codes "GenuineIntel";
          cpu_mhz = codes "799.998";
          flags = codes "fpu" ∷ codes "vme" ∷ [];
        }
        ∷ record zero { processor = 7; siblings = 8 }
        ∷ [])
parse_cpu_info_x86-printed_example =
    X86.parse_cpu_info_x86-printed [] text_float input first_block (second_block ∷ []) input-lines
      blocks-AreRead

abbrev ppc_input : Bytes
ppc_input = codes "processor\t: 0\ncpu\t\t: POWER7\nclock\t\t: 3000.000000MHz\n\nprocessor\t: 1\n"

abbrev ppc_block : Block (Ppc.Line Bytes)
ppc_block = record {
  number = 0;
  text = codes "0";
  lines =
      Ppc.Line.cpu (codes "POWER7")
      ∷ Ppc.Line.clock (codes "3000.000000MHz") (codes "3000.000000MHz")
      ∷ Ppc.Line.other []
      ∷ [];
}

abbrev ppc_blocks : List (Block (Ppc.Line Bytes))
ppc_blocks = record { number = 1; text = codes "1"; lines = [] } ∷ []

ppc_input-lines :
    (scan (reader ppc_input)).lines
    ≡ lines_of (codes "processor\t: ") Ppc.printed (ppc_block ∷ ppc_blocks)
unfolding scan
ppc_input-lines = refl

ppc_blocks-AreRead : AreRead (Ppc.IsRead [] text_float (λ s. s)) (ppc_block ∷ ppc_blocks)
unfolding parse_uint each contains trim_space
ppc_blocks-AreRead = ((refl, (tt, (refl, (inl refl, tt)))), ((refl, tt), tt))

parse_cpu_info_ppc-printed_example :
    parse_cpu_info_ppc [] text_float (λ s. s) ppc_input
    ≡ ok (
        record zero { vendor_id = codes "POWER7"; cpu_mhz = codes "3000.000000MHz" }
        ∷ record zero { processor = 1 }
        ∷ [])
parse_cpu_info_ppc-printed_example =
    Ppc.parse_cpu_info_ppc-printed [] text_float (λ s. s) ppc_input ppc_block ppc_blocks
      ppc_input-lines ppc_blocks-AreRead

abbrev mips_input : Bytes
mips_input =
    codes "system type\t\t: UBNT\n\nprocessor\t\t: 0\ncpu model\t\t: MIPS 1004Kc\n"
    ++ codes "BogoMIPS\t\t: 2.0\n\nprocessor\t\t: 1\n"

abbrev mips_blocks : List (Block (Mips.Line Bytes))
mips_blocks =
    record {
      number = 0;
      text = codes "0";
      lines =
          Mips.Line.cpu_model (codes "MIPS 1004Kc")
          ∷ Mips.Line.bogomips (codes "2.0") (codes "2.0")
          ∷ Mips.Line.other []
          ∷ [];
    }
    ∷ record { number = 1; text = codes "1"; lines = [] }
    ∷ []

mips_input-lines :
    (scan (reader mips_input)).lines
    ≡ codes "system type\t\t: UBNT"
      ∷ ([] ∷ lines_of (codes "processor\t\t: ") Mips.printed mips_blocks)
unfolding scan
mips_input-lines = refl

mips_heads-IsOther : All (IsOther Mips.known) ([] ∷ [])
unfolding contains
mips_heads-IsOther = (inl refl, tt)

mips_blocks-AreRead : AreRead (Mips.IsRead [] text_float) mips_blocks
unfolding parse_uint each contains trim_space
mips_blocks-AreRead = ((refl, (tt, (refl, (inl refl, tt)))), ((refl, tt), tt))

parse_cpu_info_mips-printed_example :
    parse_cpu_info_mips [] text_float mips_input
    ≡ ok (
        record zero {
          vendor_id = codes "UBNT";
          model_name = codes "MIPS 1004Kc";
          bogo_mips = codes "2.0";
        }
        ∷ record zero { processor = 1; vendor_id = codes "UBNT" }
        ∷ [])
parse_cpu_info_mips-printed_example =
    Mips.parse_cpu_info_mips-printed [] text_float mips_input (codes "UBNT") ([] ∷ []) mips_blocks
      mips_input-lines mips_heads-IsOther mips_blocks-AreRead (refl, (refl, tt))

abbrev riscv_input : Bytes
riscv_input = codes "processor\t: 0\nhart\t: 1\nprocessor\t: 2\nisa\t: rv64\n"

parse_cpu_info_riscv_panic_example : parse_cpu_info_riscv [] text_float riscv_input ≡ panic
unfolding first_cpu line_entry riscv_field first_non_empty_line scan trim_space contains
    split_two_text parse_uint each bytes_eq
parse_cpu_info_riscv_panic_example =
    parse_cpu_info_riscv_panic [] text_float riscv_input zero (codes "hart\t: 1" ∷ [])
      (codes "isa\t: rv64" ∷ []) (codes "processor\t: 2")
      (Entry.set (λ cpu. record cpu { core_id = codes "1" }) ∷ []) 2 refl refl (refl, tt) tt refl
      (omega arith)

arm_run :
    parse_cpu_info_arm [] text_float
      (codes "Processor\t: ARMv7\n\nprocessor\t: 0\nprocessor\t: 1\n\nFeatures\t: swp half\n")
    ≡ ok (
        record (zero_cpu_info [] text_float) {
          model_name = codes "ARMv7";
          flags = codes "swp" ∷ codes "half" ∷ [];
        }
        ∷ record (zero_cpu_info [] text_float) {
          processor = 1;
          model_name = codes "ARMv7";
          flags = codes "swp" ∷ codes "half" ∷ [];
        }
        ∷ [])
unfolding parse_cpu_info_arm parse_uint each has_prefix scan trim_space contains split_two_text
    bytes_eq set_at fields
arm_run = refl

-- One processor and no "Features" line.
abbrev arm_plain : Bytes
arm_plain = codes "processor\t: 0\nBogoMIPS\t: 2\n"

parse_cpu_info_arm-no_features_example :
    Yields (parse_cpu_info_arm [] text_float arm_plain) (λ cpuinfo. cpuinfo ≡ [])
unfolding first_non_empty_line scan trim_space split_two_text bytes_eq
parse_cpu_info_arm-no_features_example =
    parse_cpu_info_arm-no_features [] text_float arm_plain (refl, tt)

s390x_run :
    parse_cpu_info_s390x [] text_float
      (λ line. line ∷ codes "1" ∷ [])
      (λ text. text)
      (codes
        "vendor_id : IBM\nfeatures\t: a b\nprocessor 1: version = FF\n\ncpu number      : 0\ncore id : 5\n")
    ≡ ok (
        record (zero_cpu_info [] text_float) {
          processor = 1;
          vendor_id = codes "IBM";
          flags = codes "a" ∷ codes "b" ∷ [];
          core_id = codes "5";
        }
        ∷ [])
unfolding parse_cpu_info_s390x parse_uint each has_prefix scan trim_space contains split_two_text
    bytes_eq set_at fields scan_again
s390x_run = refl

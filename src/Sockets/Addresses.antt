-- ===== src/Sockets/Addresses.antt =====
-- net_ip_socket.go: addresses as the kernel prints them.
use procfs.Base.{
  ℕ, ◌/◌, ◌%◌, ◌<◌, [], ◌∷◌, Bytes, ◌⊎◌, inl, inr, All, length, arith, ◌≡◌, ◌≢◌, refl,
}
use procfs.Go.Cells.{exact_cells}
use procfs.Go.Hex.{hex_text, hex_digit, decode_string-hex_text}
use procfs.Go.Result.{ok}
use procfs.Go.Text.Parts.{Lacks}
use procfs.Sockets.Line.{parse_ip}

-- A little-endian machine prints each word of four bytes from its last byte to its first one.
abbrev pub words_reversed : Bytes → Bytes
words_reversed (a ∷ b ∷ c ∷ d ∷ rest) = d ∷ c ∷ b ∷ a ∷ words_reversed rest
words_reversed _ = []

-- IPv4 or IPv6.
abbrev pub IsIp : Bytes → Type 0
IsIp ip = ((length ip ≡ 4) ⊎ (length ip ≡ 16)) × All (λ b. b < 256) ip

abbrev pub ip_text : Bytes → Bytes
ip_text ip = hex_text (words_reversed ip)

abbrev Reads : Bytes → Type 0
Reads ip = All (λ b. b < 256) ip → parse_ip (ip_text ip) ≡ ok ip

parse_ip-ip_text4 : (ip : Bytes) → length ip ≡ 4 → Reads ip
unfolding parse_ip
parse_ip-ip_text4 =
    exact_cells 4 Reads
      λ a b c d h. rw (decode_string-hex_text (d ∷ c ∷ b ∷ a ∷ []) (omega arith)) refl

parse_ip-ip_text16 : (ip : Bytes) → length ip ≡ 16 → Reads ip
unfolding parse_ip
parse_ip-ip_text16 = exact_cells 16 Reads λ a b c d e f g h i j k l m n o p bytes.
    rw
      (decode_string-hex_text (d ∷ c ∷ b ∷ a ∷ h ∷ g ∷ f ∷ e ∷ l ∷ k ∷ j ∷ i ∷ p ∷ o ∷ n ∷ m ∷ [])
        (omega arith))
      refl

-- An address of 4 bytes (IPv4) or 16 bytes (IPv6) that is printed in words of four bytes, the bytes of every
-- word in reverse order and in hexadecimal digits, is read back: `parseIP` reverses the one word of an IPv4
-- address too, whose bytes its comment says are in network order.
pub parse_ip-ip_text : (ip : Bytes) → IsIp ip → parse_ip (ip_text ip) ≡ ok ip
parse_ip-ip_text ip (inl four, bytes) = parse_ip-ip_text4 ip four bytes
parse_ip-ip_text ip (inr sixteen, bytes) = parse_ip-ip_text16 ip sixteen bytes

hex_digit-ne : (n : ℕ) → n < 16 → hex_digit n ≢ b':'
hex_digit-ne n h = ground arith

hex_text-Lacks : (bs : Bytes) → All (λ b. b < 256) bs → Lacks b':' (hex_text bs)
hex_text-Lacks [] h = tt
hex_text-Lacks (b ∷ bs) (h, hs) = (
  hex_digit-ne (b / 16) (omega arith),
  (hex_digit-ne (b % 16) (omega arith), hex_text-Lacks bs hs),
)

words_reversed-bytes : (ip : Bytes) → All (λ b. b < 256) ip → All (λ b. b < 256) (words_reversed ip)
words_reversed-bytes [] h = tt
words_reversed-bytes (a ∷ []) h = tt
words_reversed-bytes (a ∷ b ∷ []) h = tt
words_reversed-bytes (a ∷ b ∷ c ∷ []) h = tt
words_reversed-bytes (a ∷ b ∷ c ∷ d ∷ rest) (h, (i, (j, (k, hs)))) =
    (k, (j, (i, (h, words_reversed-bytes rest hs))))

pub ip_text-Lacks : (ip : Bytes) → IsIp ip → Lacks b':' (ip_text ip)
ip_text-Lacks ip (_, bytes) = hex_text-Lacks (words_reversed ip) (words_reversed-bytes ip bytes)

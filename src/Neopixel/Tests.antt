-- ===== src/Neopixel/Tests.antt =====
-- Two groups of bytes on pin 2 of port B, to pixels whose reset is 50 us.
use not.Prelude.{ℕ, ◌≡◌, refl, leb, if◌then◌else◌, List, [], ◌∷◌, some, length}
use not.Hardware.{gpio_b, Trace}
use not.Neopixel.{neopixel_send_buffer}
use not.Neopixel.Line.{pixel, bits_of_bytes}
use not.Neopixel.Pixel.{shown_each, neopixel_send_buffer_lem}

abbrev two_pixels : List ℕ
two_pixels = 0 ∷ 0x80 ∷ 0xFF ∷ 0x01 ∷ 0x55 ∷ 0 ∷ []

neopixel_send_buffer_lem_example :
    (t' : Trace) × (neopixel_send_buffer gpio_b 4 two_pixels (length two_pixels) [] ≡ some t')
    × ((pixel gpio_b 2 50 t').bits ≡ (if leb 50 200 then [] else bits_of_bytes two_pixels))
    × ((pixel gpio_b 2 50 t').shown ≡ (
        if leb 50 200
        then shown_each two_pixels (pixel gpio_b 2 50 []).shown
        else (pixel gpio_b 2 50 []).shown))
neopixel_send_buffer_lem_example =
    neopixel_send_buffer_lem gpio_b 2 50 4 refl 2 two_pixels [] refl refl

-- ===== src/Tests/Cards.antt =====
-- The theorems on the ioctl that is repeated and on the handles of the cards.
use amdtop.Base.{
  ℕ, ◌≡◌, ◌+◌, ◌<◌, refl, true, false, none, some, is_some, [], ◌∷◌, ◌++◌, pos, negsuc, suc, zero,
  arith, ltb, length, ap, ◌==◌,
}
use amdtop.Core.Ioctl.{Answer, is_interrupted, gpu_ioctl}
use amdtop.Core.Ioctl.Retry.{gpu_ioctl-first}
use amdtop.Core.Atombios.{Atombios, atombios_init, atombios_get_data_by_id}
use amdtop.Core.Atombios.Layout.{bytes_of, atombios_get_data_by_id-bytes_of}
use amdtop.Core.Atombios.Room.{header_fits, is_some-atombios_init}
use amdtop.Core.Info.{Kernel, gpu_query_sensor_info}
use amdtop.Core.Info.Codes.{Asks, gpu_query_sensor_info-Asks}
use amdtop.Core.Handles.{
  DeviceType, GpuDevice, PciAddress, DirEntry, Files, Sys, gpu_get_devices, gpu_get_device_by_bus,
  gpu_max_card_support,
}
use amdtop.Core.Handles.Numbered.{Numbered, gpu_get_devices-Numbered}
use amdtop.Core.Handles.Owned.{Leaves, holders, at_address, last_of, Sound}
use amdtop.Core.Handles.ByBus.{PicksAt, gpu_get_device_by_bus-Leaves}

-- Two interrupted calls, then a success.
abbrev signalled : ℕ → Answer
signalled zero = record { ret = negsuc 0; errno = 4 }
signalled (suc zero) = record { ret = negsuc 0; errno = 11 }
signalled (suc (suc n)) = record { ret = pos 0; errno = 0 }

signalled-interrupted : (i : ℕ) → i < 2 → is_interrupted (signalled (i + 0)) ≡ true
unfolding is_interrupted
signalled-interrupted i l = ground arith

gpu_ioctl-first_example : gpu_ioctl signalled 5 0 ≡ some ((signalled (2 + 0)).ret, suc (2 + 0))
unfolding is_interrupted
gpu_ioctl-first_example = gpu_ioctl-first signalled 2 0 5 signalled-interrupted refl (omega arith)

abbrev entry : DirEntry
entry = record { name = "card0"; is_hidden = false; starts_render = false; starts_card = true }

abbrev somewhere : GpuDevice → PciAddress
somewhere d = record { domain = 0; bus = d.index; dev = 0; func = 0 }

-- Two cards, on the buses 0 and 1.
abbrev two_cards : Sys
two_cards = record {
  open_file = λ l n. pos (3 + length l);
  fstat = λ l fd. record { ret = pos 0; is_chr = true; major = 226; minor = 0 };
  entries = λ l. entry ∷ record entry { name = "card1" } ∷ [];
  alloc = λ l n. true;
  pci_info = λ l d. (pos 0, somewhere d);
}

two_cards-Sound : Sound two_cards somewhere
two_cards-Sound = record {
  stat_ret = λ l fd. refl;
  chr = λ l fd. refl;
  drm = λ l fd. refl;
  not_stdin = λ l n. ground arith;
  located = λ l d. refl;
}

abbrev idle : Files
idle = record { log = []; fault = false }

gpu_get_devices-Numbered_example :
    Numbered DeviceType.card 0 (gpu_get_devices two_cards DeviceType.card idle).1
    × ((gpu_get_devices two_cards DeviceType.card idle).2.fault
        ≡ ltb gpu_max_card_support (length (gpu_get_devices two_cards DeviceType.card idle).1))
gpu_get_devices-Numbered_example =
    gpu_get_devices-Numbered two_cards DeviceType.card idle (λ l n. refl) refl

abbrev second : PciAddress
second = record { domain = 0; bus = 1; dev = 0; func = 0 }

-- The number of a card is its bus here.
second_only : PicksAt somewhere second (λ d. d.index == 1)
second_only = record {
  only = λ d e.
      let number : d.index ≡ 1 = ground (arith, e) in
      ap (λ n. record { domain = 0; bus = n; dev = 0; func = 0 }) number;
  all =
      λ d e. let number : d.index ≡ 1 = ap (λ (a : PciAddress). a.bus) e in ground (arith, number);
}

gpu_get_device_by_bus-Leaves_example :
    ((gpu_get_device_by_bus two_cards DeviceType.card second idle).0
      ≡ last_of (λ d. d.index == 1) none (gpu_get_devices two_cards DeviceType.card idle).1)
    × Leaves (pos 4) idle (gpu_get_device_by_bus two_cards DeviceType.card second idle).1 (
        holders
          (pos 4)
          (at_address (λ d. d.index == 1) (gpu_get_devices two_cards DeviceType.card idle).1))
    × ((gpu_get_device_by_bus two_cards DeviceType.card second idle).1.fault ≡ false)
unfolding gpu_get_devices
gpu_get_device_by_bus-Leaves_example =
    gpu_get_device_by_bus-Leaves two_cards somewhere DeviceType.card second (λ d. d.index == 1)
      (pos 4) idle two_cards-Sound second_only refl refl

-- A BIOS of which only the list of the data tables is there, behind its header of four bytes.
abbrev bios : Atombios
bios = record {
  image = (8 ∷ 0 ∷ 2 ∷ 1 ∷ []) ++ (bytes_of (0x1234 ∷ 0xabcd ∷ []) ++ []);
  len = 8;
  function_offset = 0;
  data_offset = 0;
}

atombios_get_data_by_id-bytes_of_example :
    atombios_get_data_by_id (some bios) 1 ≡ some (some 0xabcd)
atombios_get_data_by_id-bytes_of_example =
    atombios_get_data_by_id-bytes_of bios (8 ∷ 0 ∷ 2 ∷ 1 ∷ []) (0x1234 ∷ 0xabcd ∷ []) [] 1 0xabcd
      refl refl refl (omega arith)

-- An image that ends behind the magic number, with the length of a whole one.
is_some-atombios_init_example :
    is_some (atombios_init bios (0x55 ∷ 0xaa ∷ []) (suc 65535)) ≡ header_fits (0x55 ∷ 0xaa ∷ [])
is_some-atombios_init_example = is_some-atombios_init bios [] 65535

-- A kernel that says 55 to everything.
abbrev warm : Kernel
warm l r = (pos 0, 55 ∷ [])

gpu_query_sensor_info-Asks_example : Asks warm 3 0 [] (gpu_query_sensor_info warm 3 0 [])
gpu_query_sensor_info-Asks_example = gpu_query_sensor_info-Asks warm 3 0 [] (omega arith)

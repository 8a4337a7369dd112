-- ===== src/Rtas/Ela/Tables.antt =====
-- The global arrays of rtas_errd/dchrp_frus.h that ela.c names, by name and with what they hold at
-- first. Error log analysis writes into them.
pub mod Cpu
pub mod Memory
pub mod Io
pub mod Sp
pub mod Warnings
pub mod Version3
use ppc64_diag.Base.{ℕ, List}
use ppc64_diag.Rtas.Ela.Description.{Description}
use ppc64_diag.Rtas.Ela.Tables.Cpu
use ppc64_diag.Rtas.Ela.Tables.Memory
use ppc64_diag.Rtas.Ela.Tables.Io
use ppc64_diag.Rtas.Ela.Tables.Sp
use ppc64_diag.Rtas.Ela.Tables.Warnings
use ppc64_diag.Rtas.Ela.Tables.Version3

pub data Table : Type 0 where
  cpu610 cpu611 cpu612 cpu613 cpu614 cpu615 cpu619 cpu710 cpu711 cpu712 cpu713 cpu714 : Table
  cpu715 : Table
  mem624 mem625 mem626 mem627 mem628 mem629 mem722 mem723 mem724 mem725 memtest600 : Table
  io630 io631 io632 io633 io634 io833 io9cc iobusonly io832 io639 io730 io731 io732 : Table
  io733 io734 io735 io736 io770 io771 io772 io773 : Table
  sp740 sp640 sp641 sp642 sp741 sp742 sp643 sp644 sp743 sp744 sp745 sp746 sp747 sp748 : Table
  sp749 sp750 sp751 sp752 sp753 sp754 sp760 : Table
  epow800 epow801 epow802 epow809 epow810 epow811 epow812 epow813 epow814 epow815 : Table
  epow816 epow817 epow819 epow819red epow820 epow821 epow822 epow823 epow824 epow652810 : Table
  epow652820 fan_epow volt_epow therm_epow pow_epow unknown_epow : Table
  post cec_src platform_error v3_errdscr bypass_errdscr : Table

-- A number for each array, by which two of them are told apart.
unfoldable pub number : Table → ℕ
number cpu610 = 0
number cpu611 = 1
number cpu612 = 2
number cpu613 = 3
number cpu614 = 4
number cpu615 = 5
number cpu619 = 6
number cpu710 = 7
number cpu711 = 8
number cpu712 = 9
number cpu713 = 10
number cpu714 = 11
number cpu715 = 12
number mem624 = 13
number mem625 = 14
number mem626 = 15
number mem627 = 16
number mem628 = 17
number mem629 = 18
number mem722 = 19
number mem723 = 20
number mem724 = 21
number mem725 = 22
number memtest600 = 23
number io630 = 24
number io631 = 25
number io632 = 26
number io633 = 27
number io634 = 28
number io833 = 29
number io9cc = 30
number iobusonly = 31
number io832 = 32
number io639 = 33
number io730 = 34
number io731 = 35
number io732 = 36
number io733 = 37
number io734 = 38
number io735 = 39
number io736 = 40
number io770 = 41
number io771 = 42
number io772 = 43
number io773 = 44
number sp740 = 45
number sp640 = 46
number sp641 = 47
number sp642 = 48
number sp741 = 49
number sp742 = 50
number sp643 = 51
number sp644 = 52
number sp743 = 53
number sp744 = 54
number sp745 = 55
number sp746 = 56
number sp747 = 57
number sp748 = 58
number sp749 = 59
number sp750 = 60
number sp751 = 61
number sp752 = 62
number sp753 = 63
number sp754 = 64
number sp760 = 65
number epow800 = 66
number epow801 = 67
number epow802 = 68
number epow809 = 69
number epow810 = 70
number epow811 = 71
number epow812 = 72
number epow813 = 73
number epow814 = 74
number epow815 = 75
number epow816 = 76
number epow817 = 77
number epow819 = 78
number epow819red = 79
number epow820 = 80
number epow821 = 81
number epow822 = 82
number epow823 = 83
number epow824 = 84
number epow652810 = 85
number epow652820 = 86
number fan_epow = 87
number volt_epow = 88
number therm_epow = 89
number pow_epow = 90
number unknown_epow = 91
number post = 92
number cec_src = 93
number platform_error = 94
number v3_errdscr = 95
number bypass_errdscr = 96

unfoldable pub initial : Table → List Description
initial cpu610 = Cpu.cpu610
initial cpu611 = Cpu.cpu611
initial cpu612 = Cpu.cpu612
initial cpu613 = Cpu.cpu613
initial cpu614 = Cpu.cpu614
initial cpu615 = Cpu.cpu615
initial cpu619 = Cpu.cpu619
initial cpu710 = Cpu.cpu710
initial cpu711 = Cpu.cpu711
initial cpu712 = Cpu.cpu712
initial cpu713 = Cpu.cpu713
initial cpu714 = Cpu.cpu714
initial cpu715 = Cpu.cpu715
initial mem624 = Memory.mem624
initial mem625 = Memory.mem625
initial mem626 = Memory.mem626
initial mem627 = Memory.mem627
initial mem628 = Memory.mem628
initial mem629 = Memory.mem629
initial mem722 = Memory.mem722
initial mem723 = Memory.mem723
initial mem724 = Memory.mem724
initial mem725 = Memory.mem725
initial memtest600 = Memory.memtest600
initial io630 = Io.io630
initial io631 = Io.io631
initial io632 = Io.io632
initial io633 = Io.io633
initial io634 = Io.io634
initial io833 = Io.io833
initial io9cc = Io.io9cc
initial iobusonly = Io.iobusonly
initial io832 = Io.io832
initial io639 = Io.io639
initial io730 = Io.io730
initial io731 = Io.io731
initial io732 = Io.io732
initial io733 = Io.io733
initial io734 = Io.io734
initial io735 = Io.io735
initial io736 = Io.io736
initial io770 = Io.io770
initial io771 = Io.io771
initial io772 = Io.io772
initial io773 = Io.io773
initial sp740 = Sp.sp740
initial sp640 = Sp.sp640
initial sp641 = Sp.sp641
initial sp642 = Sp.sp642
initial sp741 = Sp.sp741
initial sp742 = Sp.sp742
initial sp643 = Sp.sp643
initial sp644 = Sp.sp644
initial sp743 = Sp.sp743
initial sp744 = Sp.sp744
initial sp745 = Sp.sp745
initial sp746 = Sp.sp746
initial sp747 = Sp.sp747
initial sp748 = Sp.sp748
initial sp749 = Sp.sp749
initial sp750 = Sp.sp750
initial sp751 = Sp.sp751
initial sp752 = Sp.sp752
initial sp753 = Sp.sp753
initial sp754 = Sp.sp754
initial sp760 = Sp.sp760
initial epow800 = Warnings.epow800
initial epow801 = Warnings.epow801
initial epow802 = Warnings.epow802
initial epow809 = Warnings.epow809
initial epow810 = Warnings.epow810
initial epow811 = Warnings.epow811
initial epow812 = Warnings.epow812
initial epow813 = Warnings.epow813
initial epow814 = Warnings.epow814
initial epow815 = Warnings.epow815
initial epow816 = Warnings.epow816
initial epow817 = Warnings.epow817
initial epow819 = Warnings.epow819
initial epow819red = Warnings.epow819red
initial epow820 = Warnings.epow820
initial epow821 = Warnings.epow821
initial epow822 = Warnings.epow822
initial epow823 = Warnings.epow823
initial epow824 = Warnings.epow824
initial epow652810 = Warnings.epow652810
initial epow652820 = Warnings.epow652820
initial fan_epow = Warnings.fan_epow
initial volt_epow = Warnings.volt_epow
initial therm_epow = Warnings.therm_epow
initial pow_epow = Warnings.pow_epow
initial unknown_epow = Warnings.unknown_epow
initial post = Version3.post
initial cec_src = Version3.cec_src
initial platform_error = Version3.platform_error
initial v3_errdscr = Version3.v3_errdscr
initial bypass_errdscr = Version3.bypass_errdscr

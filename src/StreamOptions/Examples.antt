-- ===== src/StreamOptions/Examples.antt =====
-- The activation that the Linux controller sends, and the layout theorem at it.
use open_cam.Prelude.{◌≡◌, some, arith, length}
use open_cam.StreamOptions.{default_options, build_activation_packet}
use open_cam.StreamOptions.Layout.{
  length-build_activation_packet, read_packet, read_packet-build_activation_packet,
}

length-build_activation_packet_example : length (build_activation_packet default_options) ≡ 40
length-build_activation_packet_example = length-build_activation_packet default_options

read_packet-build_activation_packet_example :
    read_packet (build_activation_packet default_options) ≡ some default_options
read_packet-build_activation_packet_example =
    read_packet-build_activation_packet default_options (omega arith)

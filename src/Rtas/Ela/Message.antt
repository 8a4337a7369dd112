-- ===== src/Rtas/Ela/Message.antt =====
-- The messages of rtas_errd/ela_msg.h that ela.c and the tables of dchrp_frus.h name, by their
-- macros; their text is not modelled. `no_text` is the empty string of a table whose message is set
-- before it is reported.
use ppc64_diag.Base.{ℕ}

pub data Message : Type 0 where
  no_text : Message
  defer_msgallzero defer_msgcpub12b0 defer_msgcpub12b1 defer_msgcpub12b2 : Message
  defer_msgcpub12b3 defer_msgcpub12b4 defer_msgcpub12b5 defer_msgcpub12b6 : Message
  defer_msgcpub12b7 defer_msgiob12b0 defer_msgiob12b1 defer_msgiob12b2 defer_msgiob12b3 : Message
  defer_msgiob12b4 defer_msgiob12b5 defer_msgiob12b5b13b3 defer_msgiob12b6 : Message
  defer_msgiob12b6b13b3 defer_msgiob12b7 defer_msgiob12b7b13b3 defer_msgiob13b3 : Message
  defer_msgiob13b4 defer_msgiob13b5 defer_msgiob13b6 defer_msgiob13b7 defer_msgmemb12b0 : Message
  defer_msgmemb12b1 defer_msgmemb12b2 defer_msgmemb12b3 defer_msgmemb12b4 : Message
  defer_msgmemb12b5 defer_msgmemb12b6 defer_msgmemb12b7 defer_msgmemb13b0 : Message
  defer_msgmemb13b1 defer_msgmemb13b2 defer_msgmemb13b3 defer_msgmemb13b4 : Message
  defer_msgmemb13b6 defer_msgmemb13b7 defer_msgrefcode_cust defer_msgreserved : Message
  defer_msgspb16b0 defer_msgspb16b1 defer_msgspb16b2 defer_msgspb16b3 defer_msgspb16b4 : Message
  defer_msgspb16b5 defer_msgspb16b6 defer_msgspb16b7 defer_msgspb17b0 defer_msgspb17b1 : Message
  defer_msgspb17b2 defer_msgspb17b3 defer_msgspb17b4 defer_msgspb17b5 defer_msgspb18b0 : Message
  defer_msgspb18b1 defer_msgspb18b2 defer_msgspb18b3 defer_msgspb18b4 defer_msgspb18b6 : Message
  defer_msgspb18b7 defer_msgspb19b0 defer_msgspb19b1 defer_msgspb19b4 defer_msgspb19b5 : Message
  defer_msgspb19b6 defer_msgspb28b0 defer_msgspb28b1 defer_msgspb28b2 defer_msgspb28b3 : Message
  defer_msgspb28b4 defer_msgspb28b5 defer_msgspb28b6 defer_msgspb28b7 : Message
  defer_msg_unsupported_mem msgcpuallzero msgcpub12b0 msgcpub12b1 msgcpub12b2 : Message
  msgcpub12b3 msgcpub12b4 msgcpub12b5 msgcpub12b6 msgcpub12b7 msgcrit_fan : Message
  msgcrit_fan_shut msgcrit_power msgcrit_power_shut msgcrit_therm msgcrit_therm_shut : Message
  msgcrit_unk msgcrit_unk_shut msgcrit_volt msgcrit_volt_shut msgepow1501b16b4 : Message
  msgepow1502b16b4 msgepowallzero msgepowb1505 msgepowb16b1b17b4 msgepowb16b23 : Message
  msgepowb16b2c12 msgepowb16b2c37 msgepowb16b2b3 msgepowb16b3 msgepowb17b0c12 : Message
  msgepowb17b0c37 msgepowb17b2c12 msgepowb17b2c37 msgepowb17b2red msgepowpci001 : Message
  msgepowpci010 msgepowpci011 msgepowpci100 msgepowpci111 msgioallzero msgiob12b0 : Message
  msgiob12b1 msgiob12b2 msgiob12b3 msgiob12b4 msgiob12b5 msgiob12b5b13b3 msgiob12b6 : Message
  msgiob12b6b13b3 msgiob12b7 msgiob12b7b13b3 msgiob13b3 msgiob13b4 msgiob13b5 msgiob13b6 : Message
  msgiob13b7 msgmemallzero msgmemb12b0 msgmemb12b1 msgmemb12b2 msgmemb12b3 msgmemb12b4 : Message
  msgmemb12b5 msgmemb12b6 msgmemb12b7 msgmemb13b0 msgmemb13b1 msgmemb13b2 msgmemb13b3 : Message
  msgmemb13b4 msgmemb13b6 msgmemb13b7 msgmenug102 msgmenug150 msgmenug151 msgmenug152 : Message
  msgmenug153 msgmenug156 msgmenug157 msgmenug158 msgmenug159 msgmenug160 msgmenug161 : Message
  msgmenug162 msgmenug171 msgmenug174 msgmenug175 msgmenug202 msgmenug204 msgmenug205 : Message
  msgpostall msgred_fan msgred_power msgred_unk msgrefcode_cust msgreserved msgspallzero : Message
  msgspb16b0 msgspb16b1 msgspb16b2 msgspb16b3 msgspb16b4 msgspb16b5 msgspb16b6 : Message
  msgspb16b7 msgspb17b0 msgspb17b1 msgspb17b2 msgspb17b3 msgspb17b4 msgspb17b5 : Message
  msgspb18b0 msgspb18b1 msgspb18b2 msgspb18b3 msgspb18b4 msgspb18b6 msgspb18b7 : Message
  msgspb19b0 msgspb19b1 msgspb19b4 msgspb19b5 msgspb19b6 msgspb28b0 msgspb28b1 : Message
  msgspb28b2 msgspb28b3 msgspb28b4 msgspb28b5 msgspb28b6 msgspb28b7 msgwarn_fan : Message
  msgxepow1n11 msgxepow1n64 msgxepow2n32 msgxepow2n52 msgxepow3n21 msgxepow3n73 : Message
  msg_bypass msg_platform_error msg_unknown_v3 msg_unsupported_mem : Message
  predict_repair_pending predict_unrecov : Message

-- `atoi` of the text of a menu goal, which begins with its number; 0 for the others, which are not
-- menu goals.
unfoldable pub menu_number : Message → ℕ
menu_number msgmenug102 = 651102
menu_number msgmenug150 = 651150
menu_number msgmenug151 = 651151
menu_number msgmenug152 = 651152
menu_number msgmenug153 = 651153
menu_number msgmenug156 = 651156
menu_number msgmenug157 = 651157
menu_number msgmenug158 = 651158
menu_number msgmenug159 = 651159
menu_number msgmenug160 = 651160
menu_number msgmenug161 = 651161
menu_number msgmenug162 = 651162
menu_number msgmenug171 = 651171
menu_number msgmenug174 = 651174
menu_number msgmenug175 = 651175
menu_number msgmenug202 = 651202
menu_number msgmenug204 = 651204
menu_number msgmenug205 = 651205
menu_number _ = 0

-- ===== src/Usb.antt =====
-- components/usb_modem_transport: the search for serial interfaces in a USB descriptor, and the modes
-- of Huawei modems.
pub mod Descriptor
pub mod ModeSwitch

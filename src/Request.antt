-- ===== src/Request.antt =====
-- The life of a request inside the driver: the modules below model driver/util.c,
-- driver/wnbd_dispatch.c and the queuing part of driver/scsi_operation.c.
pub mod SrbStatus
pub mod Pool
pub mod Complete
pub mod Pend
pub mod Validate
pub mod Memory
pub mod Send
pub mod Dispatch
pub mod Initialize
pub mod Execute
pub mod Response

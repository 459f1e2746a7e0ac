-- ===== src/Tlv.antt =====
-- Thread-local variables: z_pthread_tlv.c, and the structures of z_machO.h that it reads.
pub mod Terminators
pub mod Termination
pub mod Image
pub mod Keys
pub mod Words
pub mod Descriptors
pub mod Storage
